-- ===== src/Database/Preserves.antt =====
-- Requests that keep a property of the committed tables, whatever fails on the way.
pub mod Pool
use vanguard_settlement_engi.Base.{none, ◌≡◌, inl, inr, sym, subst}
use vanguard_settlement_engi.Errors.{Thrown, Result, ok, err}
use vanguard_settlement_engi.Database.{Tables, Stmt}
use vanguard_settlement_engi.Database.Session.{World, M, ◌>>=◌}
use vanguard_settlement_engi.Database.Atomic.{Simulates}
use vanguard_settlement_engi.Database.Transaction.{
  transaction, AllOrNothing, IsQuiet, transaction-AllOrNothing,
}
use vanguard_settlement_engi.Database.Hoare.{Holds}

module _ (P : Tables → Type 0) where
  pub record Preserves {A : Type 0} (m : M A) : Type 0 where
    pub keeps :
        (w : World) → w.tx ≡ none → P w.committed → ((m w).1.tx ≡ none) × P (m w).1.committed

  pub quiet-Preserves : {A : Type 0} (m : M A) → IsQuiet m → Preserves m
  quiet-Preserves m q = record {
    keeps = λ w h p. let (h', same) = q.keeps w h in (h', subst P (sym same) p);
  }

  module _ {A B : Type 0} (m : M A) (f : A → M B) (pm : Preserves m)
      (pf : (a : A) → Preserves (f a)) where
    preserved_after :
        (x : Result A × World)
        → (x.1.tx ≡ none) × P x.1.committed
        → let y : Result B × World = elim x.0 [ ok a ↦ f a x.1 | err e ↦ (err e, x.1) ] in
          (y.1.tx ≡ none) × P y.1.committed
    preserved_after (ok a, v) (h, p) = (pf a).keeps v h p
    preserved_after (err e, v) k = k

    pub >>=-Preserves : Preserves (m >>= f)
    >>=-Preserves = record { keeps = λ w h p. preserved_after (m w) (pm.keeps w h p) }

  module _ {A B : Type 0} (body : M A) (s : Stmt A) (after : A → M B) (rethrown : Thrown → Thrown)
      (follows : Simulates body s) (quiet : (a : A) → IsQuiet (after a))
      (kept : (t : Tables) → P t → Holds {A = A} (λ _ t'. P t') (s t)) where
    ended :
        (w : World) (r : Result (A × Tables)) (x : Result B × World)
        → P w.committed
        → Holds {A = A} (λ _ t'. P t') r
        → AllOrNothing {B = B} r w x
        → (x.1.tx ≡ none) × P x.1.committed
    ended w r (ok b, v) p k (h, (a, e)) = (h, subst (Holds {A = A} (λ _ t'. P t')) e k)
    ended w r (err _, v) p k (h, inl same) = (h, subst P (sym same) p)
    ended w r (err _, v) p k (h, inr (a, e)) = (h, subst (Holds {A = A} (λ _ t'. P t')) e k)

    -- A transaction keeps what its statements keep.
    pub transaction-Preserves : Preserves (transaction body after rethrown)
    transaction-Preserves = record {
      keeps = λ w h p.
          ended w (s w.committed) (transaction body after rethrown w) p (kept w.committed p)
            (transaction-AllOrNothing body s after rethrown follows quiet w);
    }
