-- ===== src/Database/Calm.antt =====
-- A transaction with no failure from outside does what its statements do.
use vanguard_settlement_engi.Base.{none, some, List, [], ◌≡◌, refl, arith, sym, subst}
use vanguard_settlement_engi.Errors.{Thrown, Result, ok, err}
use vanguard_settlement_engi.Database.{Tables, Stmt}
use vanguard_settlement_engi.Database.Session.{
  World, Job, M, ◌>>◌, throw, try_catch, begin_tx, commit_tx, rollback_tx,
}
use vanguard_settlement_engi.Database.Atomic.{Follows, Simulates}
use vanguard_settlement_engi.Database.Transaction.{transaction}

-- A request that begins on `t`, with the jobs so far, where nothing fails.
abbrev pub calm : Tables → List Job → World
calm t jobs = record { committed = t; tx = none; faults = []; jobs = jobs }

abbrev FollowsCalm : {A : Type 0} → Result (A × Tables) → World → Result A × World → Type 0
FollowsCalm (ok (a, t)) w x = x ≡ (ok a, record w { tx = some t })
FollowsCalm (err e) w x = (t : Tables) × (x ≡ (err e, record w { tx = some t }))

follows_calm :
    {A : Type 0} (r : Result (A × Tables)) (w : World) (x : Result A × World)
    → w.faults ≡ []
    → Follows r w x
    → FollowsCalm r w x
follows_calm (ok (a, t)) w (ok b, w') q (t', e, moved, still) = ground (arith, still q)
follows_calm (ok (a, t)) w (err e', w') q (t', moved, why, still) = absurd (ground (arith, still q))
follows_calm (err e) w (ok b, w') q (t', e', moved, still) = cc
follows_calm (err e) w (err e', w') q (t', moved, why, still) = (t', ground (arith, still q))

-- What is left to run: behind the COMMIT on the tables of `s`, or the handler.
abbrev pub Continues :
    {A B : Type 0}
    → Result (A × Tables)
    → (A → M B)
    → (Thrown → Thrown)
    → Tables
    → List Job
    → Result B × World
    → Type 0
Continues (ok (a, t)) after rethrown t₀ jobs x =
    x ≡ try_catch (after a) (λ e. rollback_tx >> throw (rethrown e)) (calm t jobs)
Continues (err e) after rethrown t₀ jobs x = x ≡ (err (rethrown e), calm t₀ jobs)

module _ {A B : Type 0} (body : M A) (s : Stmt A) (after : A → M B) (rethrown : Thrown → Thrown)
    (follows : Simulates body s) (t₀ : Tables) (jobs : List Job) where
  -- what follows the body
  abbrev finish : Result A × World → Result B × World
  finish x =
      try_catch
        (λ _. elim x.0 [ ok a ↦ (◌>>◌ {B = B} commit_tx (after a)) x.1 | err e ↦ (err e, x.1) ])
        (λ e. rollback_tx >> throw (rethrown e)) x.1

  continues :
      (r : Result (A × Tables))
      → FollowsCalm r
          (record { committed = t₀; tx = some t₀; faults = []; jobs = jobs })
          (body (record { committed = t₀; tx = some t₀; faults = []; jobs = jobs }))
      → Continues r after rethrown t₀ jobs (transaction body after rethrown (calm t₀ jobs))
  unfolding begin_tx commit_tx rollback_tx
  continues (ok (a, t)) e =
      subst (λ x. Continues (ok (a, t)) after rethrown t₀ jobs (finish x)) (sym e) refl
  continues (err x) (t, e) =
      subst (λ y. Continues {A = A} (err x) after rethrown t₀ jobs (finish y)) (sym e) refl

  -- With no failure from outside, a transaction does what its statements do.
  pub transaction-calm :
      Continues (s t₀) after rethrown t₀ jobs (transaction body after rethrown (calm t₀ jobs))
  transaction-calm =
      let w : World = record { committed = t₀; tx = some t₀; faults = []; jobs = jobs } in
      continues (s t₀) (follows_calm (s t₀) w (body w) refl (follows w t₀ refl))
