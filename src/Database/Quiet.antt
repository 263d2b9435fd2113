-- ===== src/Database/Quiet.antt =====
-- Code that leaves the tables alone: reads, tests, and calls of a queue, with no transaction open.
use vanguard_settlement_engi.Base.{
  Bool, true, false, Option, none, some, List, [], ◌∷◌, ◌≡◌, refl, ◌∙◌, arith, if◌then◌else◌,
}
use vanguard_settlement_engi.Errors.{Thrown, Result, ok, err}
use vanguard_settlement_engi.Database.{Tables, Stmt}
use vanguard_settlement_engi.Database.Session.{
  World, Job, M, ◌>>=◌, pure, throw_if, or_throw, from_result, external, external_of, on_committed,
  on_client, pool_query, client_query, connect, commit_tx, commit_of, enqueue,
}
use vanguard_settlement_engi.Database.Transaction.{IsQuiet}

-- A statement that only reads.
pub record Reads {A : Type 0} (s : Stmt A) : Type 0 where
  pub row_of : Tables → A
  pub reads : (t : Tables) → s t ≡ ok (row_of t, t)

pub pure-IsQuiet : {A : Type 0} (a : A) → IsQuiet (pure a)
pure-IsQuiet a = record { keeps = λ w h. (h, refl) }

pub throw_if-IsQuiet : (b : Bool) (e : Thrown) → IsQuiet (throw_if b e)
throw_if-IsQuiet b e = record { keeps = λ w h. (h, refl) }

pub or_throw-IsQuiet : {A : Type 0} (o : Option A) (e : Thrown) → IsQuiet (or_throw o e)
or_throw-IsQuiet none e = record { keeps = λ w h. (h, refl) }
or_throw-IsQuiet (some a) e = record { keeps = λ w h. (h, refl) }

pub from_result-IsQuiet : {A : Type 0} (r : Result A) → IsQuiet (from_result r)
from_result-IsQuiet r = record { keeps = λ w h. (h, refl) }

pub external-IsQuiet : {A : Type 0} (e : Thrown) (m : M A) → IsQuiet m → IsQuiet (external e m)
external-IsQuiet e m q = record { keeps = λ w h. go w h w.faults }
  where
    go :
        (w : World)
        → w.tx ≡ none
        → (fs : List Bool)
        → ((external_of fs e m w).1.tx ≡ none) × ((external_of fs e m w).1.committed ≡ w.committed)
    go w h [] = q.keeps w h
    go w h (true ∷ fs) = (h, refl)
    go w h (false ∷ fs) = q.keeps (record w { faults = fs }) h

on_committed-IsQuiet : {A : Type 0} (s : Stmt A) → Reads s → IsQuiet (on_committed s)
on_committed-IsQuiet s r = record {
  keeps = λ w h. (ground (arith, r.reads w.committed), ground (arith, r.reads w.committed));
}

pub pool_query-IsQuiet : {A : Type 0} (s : Stmt A) → Reads s → IsQuiet (pool_query s)
unfolding pool_query
pool_query-IsQuiet s r = external-IsQuiet _ (on_committed s) (on_committed-IsQuiet s r)

on_client-IsQuiet : {A : Type 0} (s : Stmt A) → Reads s → IsQuiet (λ w. on_client s w.tx w)
on_client-IsQuiet s r = record {
  keeps = λ w h. (ground (arith, r.reads w.committed), ground (arith, r.reads w.committed));
}

pub client_query-IsQuiet : {A : Type 0} (s : Stmt A) → Reads s → IsQuiet (client_query s)
unfolding client_query
client_query-IsQuiet s r = external-IsQuiet _ _ (on_client-IsQuiet s r)

pub connect-IsQuiet : IsQuiet connect
unfolding connect
connect-IsQuiet = external-IsQuiet _ (pure tt) (pure-IsQuiet tt)

commit_of-IsQuiet : IsQuiet (λ w. commit_of w.tx w)
commit_of-IsQuiet = record { keeps = λ w h. (ground arith, ground arith) }

-- A COMMIT behind the COMMIT does nothing.
pub commit_tx-IsQuiet : IsQuiet commit_tx
unfolding commit_tx
commit_tx-IsQuiet = external-IsQuiet _ _ commit_of-IsQuiet

pub enqueue-IsQuiet : (job : Job) → IsQuiet (enqueue job)
unfolding enqueue
enqueue-IsQuiet job = external-IsQuiet _ _ (record { keeps = λ w h. (h, refl) })

module _ {A B : Type 0} (m : M A) (f : A → M B) (qm : IsQuiet m)
    (qf : (a : A) → IsQuiet (f a)) where
  quiet_after :
      (w : World) (x : Result A × World)
      → (x.1.tx ≡ none) × (x.1.committed ≡ w.committed)
      → let y : Result B × World = elim x.0 [ ok a ↦ f a x.1 | err e ↦ (err e, x.1) ] in
        (y.1.tx ≡ none) × (y.1.committed ≡ w.committed)
  quiet_after w (ok a, v) (h, same) = let (h', same') = (qf a).keeps v h in (h', same' ∙ same)
  quiet_after w (err e, v) k = k

  pub >>=-IsQuiet : IsQuiet (m >>= f)
  >>=-IsQuiet = record { keeps = λ w h. quiet_after w (m w) (qm.keeps w h) }

pub if-IsQuiet :
    {A : Type 0} (b : Bool) (m n : M A) → IsQuiet m → IsQuiet n → IsQuiet (if b then m else n)
if-IsQuiet true m n p q = p
if-IsQuiet false m n p q = q
