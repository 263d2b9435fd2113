-- ===== src/Database/Transaction.antt =====
-- `BEGIN; …; COMMIT; …` with a ROLLBACK on failure: all or nothing, whatever fails.
use vanguard_settlement_engi.Base.{
  Bool, true, false, Option, none, some, List, [], ◌∷◌, ◌≡◌, ◌⊎◌, inl, inr, refl, ap, ◌∙◌, sym,
  subst,
}
use vanguard_settlement_engi.Errors.{Thrown, Result, ok, err, database, connection_failure}
use vanguard_settlement_engi.Database.{Tables, Stmt}
use vanguard_settlement_engi.Database.Session.{
  World, M, ◌>>=◌, ◌>>◌, throw, try_catch, external_of, commit_of, drop_tx, pure, begin_tx,
  commit_tx, rollback_tx,
}
use vanguard_settlement_engi.Database.Atomic.{Follows, Simulates}

-- The shape of the services' transactions: `after` runs behind the COMMIT and inside the `try`, and
-- the handler rolls back and throws again, perhaps another error.
abbrev pub transaction : {A B : Type 0} → M A → (A → M B) → (Thrown → Thrown) → M B
transaction body after rethrown =
    try_catch (begin_tx >> (body >>= λ a. commit_tx >> after a))
      (λ e. rollback_tx >> throw (rethrown e))

-- How it ended, where the statements of `body` give `r`: all of them or none.
abbrev pub AllOrNothing : {A B : Type 0} → Result (A × Tables) → World → Result B × World → Type 0
AllOrNothing {A} r w (ok b, w') = (w'.tx ≡ none) × ((a : A) × (r ≡ ok (a, w'.committed)))
AllOrNothing {A} r w (err e, w') =
    (w'.tx ≡ none) × ((w'.committed ≡ w.committed) ⊎ ((a : A) × (r ≡ ok (a, w'.committed))))

-- The code behind the COMMIT leaves the tables alone and opens no transaction.
pub record IsQuiet {B : Type 0} (m : M B) : Type 0 where
  pub keeps : (w : World) → w.tx ≡ none → ((m w).1.tx ≡ none) × ((m w).1.committed ≡ w.committed)

abbrev tx_of : World → Option Tables
tx_of u = u.tx

abbrev committed_of : World → Tables
committed_of u = u.committed

-- As `AllOrNothing`, before the handler.
abbrev pub Ended : {A B : Type 0} → Result (A × Tables) → World → Result B × World → Type 0
Ended {A} r w (ok b, w') = (w'.tx ≡ none) × ((a : A) × (r ≡ ok (a, w'.committed)))
Ended {A} r w (err e, w') = (w'.committed ≡ w.committed) ⊎ ((a : A) × (r ≡ ok (a, w'.committed)))

module _ {A : Type 0} (B : Type 0) (r : Result (A × Tables)) (w : World)
    (rethrown : Thrown → Thrown) where
  rolled_back :
      (e : Thrown) (v : World) (fs : List Bool)
      → Ended {B = B} r w (err e, v)
      → AllOrNothing {B = B} r w (
          ◌>>◌ {B = B}
            (λ u. external_of fs (database connection_failure) (pure tt) (drop_tx u))
            (throw e)
            v)
  rolled_back e v [] h = (refl, h)
  rolled_back e v (true ∷ fs) h = (refl, h)
  rolled_back e v (false ∷ fs) h = (refl, h)

  caught :
      (x : Result B × World)
      → Ended {B = B} r w x
      → AllOrNothing {B = B} r w (elim x.0 [
        | ok b ↦ (ok b, x.1)
        | err e ↦ (◌>>◌ {B = B} rollback_tx (throw (rethrown e))) x.1
      ])
  unfolding rollback_tx
  caught (ok b, v) h = h
  caught (err e, v) h = rolled_back (rethrown e) v v.faults h

  module _ (after : A → M B) (quiet : (a : A) → IsQuiet (after a)) where
    -- behind the COMMIT
    after_commit :
        (a : A) (v : World) → v.tx ≡ none → r ≡ ok (a, v.committed) → Ended {B = B} r w (after a v)
    after_commit a v closed e = go (after a v) ((quiet a).keeps v closed)
      where
        go :
            (x : Result B × World)
            → (x.1.tx ≡ none) × (x.1.committed ≡ v.committed)
            → Ended {B = B} r w x
        go (ok b, v') (q, same) = (q, (a, rw same e))
        go (err _, v') (q, same) = inr (a, rw same e)

    at_commit :
        (a : A) (v : World) (t : Tables) (fs : List Bool)
        → v.tx ≡ some t
        → v.committed ≡ w.committed
        → r ≡ ok (a, t)
        → Ended {B = B} r w (
            ◌>>◌ {B = B}
              (λ u. external_of fs (database connection_failure) (λ z. commit_of z.tx z) u)
              (after a)
              v)
    at_commit a v t [] q same e =
        subst (λ x. Ended {B = B} r w (◌>>◌ {B = B} (commit_of x) (after a) v)) (sym q)
          (after_commit a (record v { committed = t; tx = none }) refl e)
    at_commit a v t (true ∷ fs) q same e = inl same
    at_commit a v t (false ∷ fs) q same e =
        subst
          (λ x. Ended {B = B} r w (◌>>◌ {B = B} (commit_of x) (after a) (record v { faults = fs })))
          (sym q) (after_commit a (record v { committed = t; tx = none; faults = fs }) refl e)

    pub after_body :
        (v : World) (x : Result A × World)
        → v.committed ≡ w.committed
        → Follows r v x
        → Ended {B = B} r w
            (elim x.0 [ ok a ↦ (◌>>◌ {B = B} commit_tx (after a)) x.1 | err e ↦ (err e, x.1) ])
    unfolding commit_tx
    after_body v (ok a, v') same (t, e, moved, _) =
        at_commit a v' t v'.faults (ap tx_of moved) (ap committed_of moved ∙ same) e
    after_body v (err e, v') same (t, moved, _, _) = inl (ap committed_of moved ∙ same)

module _ {A B : Type 0} (body : M A) (s : Stmt A) (after : A → M B) (rethrown : Thrown → Thrown)
    (follows : Simulates body s) (quiet : (a : A) → IsQuiet (after a)) (w : World) where
  begun :
      (fs : List Bool)
      → Ended {B = B} (s w.committed) w (
          ◌>>◌ {B = B}
            (external_of fs
              (database connection_failure)
              (λ v. (ok tt, record v { tx = some v.committed })))
            (body >>= λ a. commit_tx >> after a)
            w)
  begun [] =
      let v = record w { tx = some w.committed } in
      after_body B (s w.committed) w rethrown after quiet v (body v) refl
        (follows v w.committed refl)
  begun (true ∷ fs) = inl refl
  begun (false ∷ fs) =
      let v = record w { tx = some w.committed; faults = fs } in
      after_body B (s w.committed) w rethrown after quiet v (body v) refl
        (follows v w.committed refl)

  -- Whatever fails, a transaction commits all that its statements do or nothing of it, and leaves no
  -- transaction open; where it returns, it has committed.
  pub transaction-AllOrNothing :
      AllOrNothing {B = B} (s w.committed) w (transaction body after rethrown w)
  unfolding begin_tx
  transaction-AllOrNothing = caught B (s w.committed) w rethrown _ (begun w.faults)
