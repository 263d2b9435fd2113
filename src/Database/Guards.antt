-- ===== src/Database/Guards.antt =====
-- What a request has checked when it begins to write, and what it has written when it ends.
use vanguard_settlement_engi.Base.{
  ⊤, Bool, true, false, Option, none, some, List, [], ◌∷◌, ◌≡◌, ◌⊎◌, inl, inr, refl, sym, ◌∙◌,
  subst,
}
use vanguard_settlement_engi.Errors.{Thrown, Result, ok, err, database, connection_failure}
use vanguard_settlement_engi.Database.{Tables, Stmt}
use vanguard_settlement_engi.Database.Session.{
  World, M, ◌>>=◌, pure, throw_if, or_throw, from_result, pool_query, on_committed, external_of,
  carry,
}
use vanguard_settlement_engi.Database.Atomic.{Simulates}
use vanguard_settlement_engi.Database.Transaction.{
  transaction, AllOrNothing, IsQuiet, transaction-AllOrNothing,
}
use vanguard_settlement_engi.Database.Hoare.{Holds}
use vanguard_settlement_engi.Database.Quiet.{
  Reads, >>=-IsQuiet, pure-IsQuiet, throw_if-IsQuiet, or_throw-IsQuiet, from_result-IsQuiet,
  pool_query-IsQuiet,
}

-- A quiet run that returns only where `Q` holds of its result and the tables.
abbrev pub Checked : {A : Type 0} → (A → Tables → Type 0) → World → Result A × World → Type 0
Checked Q w (ok a, v) = Q a w.committed
Checked Q w (err e, v) = ⊤

pub record Ensures {A : Type 0} (P : Tables → Type 0) (m : M A) (Q : A → Tables → Type 0)
    : Type 0 where
  pub quiet : IsQuiet m
  pub ensures : (w : World) → w.tx ≡ none → P w.committed → Checked Q w (m w)

-- How a request ended that writes at most once: `Q` relates the tables before and after the write.
abbrev pub Wrote : {A : Type 0} → (Tables → Tables → Type 0) → World → Result A × World → Type 0
Wrote Q w (ok a, v) = (v.tx ≡ none) × Q w.committed v.committed
Wrote Q w (err e, v) = (v.tx ≡ none) × ((v.committed ≡ w.committed) ⊎ Q w.committed v.committed)

pub Wrote-weaken :
    {A : Type 0} (Q R : Tables → Tables → Type 0) (w : World) (x : Result A × World)
    → ((t t' : Tables) → Q t t' → R t t')
    → Wrote Q w x
    → Wrote R w x
Wrote-weaken Q R w (ok a, v) k (h, q) = (h, k _ _ q)
Wrote-weaken Q R w (err e, v) k (h, inl same) = (h, inl same)
Wrote-weaken Q R w (err e, v) k (h, inr q) = (h, inr (k _ _ q))

pub record Writes {A : Type 0} (P : Tables → Type 0) (m : M A) (Q : Tables → Tables → Type 0)
    : Type 0 where
  pub wrote : (w : World) → w.tx ≡ none → P w.committed → Wrote Q w (m w)

module _ {A : Type 0} (P : Tables → Type 0) where
  pub quiet-Ensures : (m : M A) → IsQuiet m → Ensures {A = A} P m (λ _ t. P t)
  quiet-Ensures m q = record { quiet = q; ensures = λ w h p. go w p (m w) }
    where
      go : (w : World) → P w.committed → (x : Result A × World) → Checked {A = A} (λ _ t. P t) w x
      go w p (ok a, v) = p
      go w p (err e, v) = tt

  pub or_throw-Ensures :
      (o : Option A) (e : Thrown) → Ensures P (or_throw o e) (λ a t. P t × (o ≡ some a))
  or_throw-Ensures none e = record { quiet = or_throw-IsQuiet none e; ensures = λ w h p. tt }
  or_throw-Ensures (some a) e = record {
    quiet = or_throw-IsQuiet (some a) e;
    ensures = λ w h p. (p, refl);
  }

  module _ (s : Stmt A) (r : Reads s) where
    read_row :
        (w : World)
        → P w.committed
        → Checked {A = A} (λ a t. P t × (s t ≡ ok (a, t))) w (on_committed s w)
    read_row w p =
        subst
          (λ x.
            Checked {A = A} (λ a t. P t × (s t ≡ ok (a, t))) w
              (elim x [
                | ok (a, t) ↦ (ok a, record w { committed = t; tx = carry s w.tx })
                | err e ↦ (err e, w)
              ]))
          (sym (r.reads w.committed)) (p, r.reads w.committed)

    read_of :
        (fs : List Bool) (w : World)
        → P w.committed
        → Checked {A = A}
            (λ a t. P t × (s t ≡ ok (a, t)))
            w
            (external_of fs (database connection_failure) (on_committed s) w)
    read_of [] w p = read_row w p
    read_of (true ∷ fs) w p = tt
    read_of (false ∷ fs) w p = read_row (record w { faults = fs }) p

    pub read-Ensures : Ensures P (pool_query s) (λ a t. P t × (s t ≡ ok (a, t)))
    unfolding pool_query
    read-Ensures = record {
      quiet = pool_query-IsQuiet s r;
      ensures = λ w h p. read_of w.faults w p;
    }

pub throw_if-Ensures :
    (P : Tables → Type 0) (b : Bool) (e : Thrown)
    → Ensures {A = ⊤} P (throw_if b e) (λ _ t. P t × (b ≡ false))
throw_if-Ensures P true e = record { quiet = throw_if-IsQuiet true e; ensures = λ w h p. tt }
throw_if-Ensures P false e = record {
  quiet = throw_if-IsQuiet false e;
  ensures = λ w h p. (p, refl);
}

pub from_result-Ensures :
    (P : Tables → Type 0) (r : Result ⊤)
    → Ensures {A = ⊤} P (from_result r) (λ _ t. P t × (r ≡ ok tt))
from_result-Ensures P (ok tt) = record {
  quiet = from_result-IsQuiet (ok tt);
  ensures = λ w h p. (p, refl);
}
from_result-Ensures P (err e) = record {
  quiet = from_result-IsQuiet (err e);
  ensures = λ w h p. tt;
}

module _ {A B : Type 0} (P : Tables → Type 0) (m : M A) (R : A → Tables → Type 0) (f : A → M B)
    (Q : Tables → Tables → Type 0) (checks : Ensures P m R)
    (writes : (a : A) → Writes (R a) (f a) Q) where
  after_checks :
      (w : World) (x : Result A × World)
      → (x.1.tx ≡ none) × (x.1.committed ≡ w.committed)
      → Checked R w x
      → Wrote {A = B} Q w (elim x.0 [ ok a ↦ f a x.1 | err e ↦ (err e, x.1) ])
  after_checks w (err e, v) (h, same) k = (h, inl same)
  after_checks w (ok a, v) (h, same) k =
      go (f a v) ((writes a).wrote v h (subst (R a) (sym same) k))
    where
      go : (x : Result B × World) → Wrote {A = B} Q v x → Wrote {A = B} Q w x
      go (ok b, u) (h', q) = (h', subst (λ t. Q t u.committed) same q)
      go (err e, u) (h', inl same') = (h', inl (same' ∙ same))
      go (err e, u) (h', inr q) = (h', inr (subst (λ t. Q t u.committed) same q))

  -- What was checked holds where the write begins.
  pub >>=-Writes : Writes P (m >>= f) Q
  >>=-Writes = record {
    wrote = λ w h p. after_checks w (m w) (checks.quiet.keeps w h) (checks.ensures w h p);
  }

module _ {A B : Type 0} (P : Tables → Type 0) (body : M A) (s : Stmt A) (after : A → M B)
    (rethrown : Thrown → Thrown) (Q : Tables → Tables → Type 0) (follows : Simulates body s)
    (quiet : (a : A) → IsQuiet (after a))
    (does : (t : Tables) → P t → Holds {A = A} (λ _ t'. Q t t') (s t)) where
  all_or_none :
      (w : World) (r : Result (A × Tables)) (x : Result B × World)
      → Holds {A = A} (λ _ t'. Q w.committed t') r
      → AllOrNothing {B = B} r w x
      → Wrote {A = B} Q w x
  all_or_none w r (ok b, v) k (h, (a, e)) =
      (h, subst (Holds {A = A} (λ _ t'. Q w.committed t')) e k)
  all_or_none w r (err _, v) k (h, inl same) = (h, inl same)
  all_or_none w r (err _, v) k (h, inr (a, e)) =
      (h, inr (subst (Holds {A = A} (λ _ t'. Q w.committed t')) e k))

  -- A transaction writes what its statements do, or nothing.
  pub transaction-Writes : Writes P (transaction body after rethrown) Q
  transaction-Writes = record {
    wrote = λ w h p.
        all_or_none w (s w.committed) (transaction body after rethrown w) (does w.committed p)
          (transaction-AllOrNothing body s after rethrown follows quiet w);
  }

-- One check after the other.
module _ {A B : Type 0} (P : Tables → Type 0) (m : M A) (R : A → Tables → Type 0) (f : A → M B)
    (Q : B → Tables → Type 0) (first : Ensures P m R)
    (second : (a : A) → Ensures (R a) (f a) Q) where
  second_check :
      (w : World) (x : Result A × World)
      → (x.1.tx ≡ none) × (x.1.committed ≡ w.committed)
      → Checked R w x
      → Checked {A = B} Q w (elim x.0 [ ok a ↦ f a x.1 | err e ↦ (err e, x.1) ])
  second_check w (err e, v) (h, same) k = tt
  second_check w (ok a, v) (h, same) k =
      go (f a v) ((second a).ensures v h (subst (R a) (sym same) k))
    where
      go : (x : Result B × World) → Checked {A = B} Q v x → Checked {A = B} Q w x
      go (ok b, u) q = subst (Q b) same q
      go (err e, u) q = tt

  pub >>=-Ensures : Ensures P (m >>= f) Q
  >>=-Ensures = record {
    quiet = >>=-IsQuiet m f first.quiet (λ a. (second a).quiet);
    ensures = λ w h p. second_check w (m w) (first.quiet.keeps w h) (first.ensures w h p);
  }

-- What a run returns is of the form that is wanted.
pub pure-Ensures :
    {A : Type 0} (P : Tables → Type 0) (a : A) (Q : A → Tables → Type 0)
    → ((t : Tables) → P t → Q a t)
    → Ensures P (pure a) Q
pure-Ensures P a Q h = record { quiet = pure-IsQuiet a; ensures = λ w _ p. h w.committed p }
