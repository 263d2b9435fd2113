-- ===== src/Api/Idempotency/Laws.antt =====
-- What a client can rely on that sends its key again, and what it cannot.
use vanguard_settlement_engi.Base.{
  ℕ, zero, suc, ◌≤◌, ◌<◌, Bool, true, false, some, List, [], ◌∷◌, find?, find?-update_where,
  update_where, ◌≡◌, ◌⊎◌, inl, inr, refl, ◌∙◌, arith, sym, subst, if◌then◌else◌,
}
use vanguard_settlement_engi.Api.Idempotency.{
  processing, Scope, IdempotencyRecord, of_scope, Keys, fails, rest_of, new_record, try_insert,
  mark_completed, complete_with, on_response, Outcome, threw, watched, replayed, replied, poll,
  with_scope, timed_out, Others,
}
use vanguard_settlement_engi.Api.Idempotency.Runs.{Runs, watched-found, with_scope-by_row}

module _ {B : Type 0} where
  -- The stored answer, or `next(err)` because a query of the table failed.
  abbrev pub GivesStored :
      ℕ
      → B
      → List Bool
      → List (IdempotencyRecord B)
      → Outcome B × List (IdempotencyRecord B)
      → Type 0
  GivesStored status body faults rows x =
      (x ≡ (replayed status (some body), rows))
      ⊎ ((x ≡ (threw, rows)) × ((fails faults ≡ true) ⊎ (fails (rest_of faults) ≡ true)))

  -- Once a request with the key has been answered with success and this was recorded, every further
  -- one is answered with the same status and body, or with an error where a query of the table fails,
  -- and runs nothing.
  pub with_scope-replays :
      (s : Scope) (others later : Others B) (keys : Keys B) (rows : List (IdempotencyRecord B))
      (marks : Bool) (status : ℕ) (body : B) (faults : List Bool)
      → with_scope s others keys ≡ (watched marks, rows)
      → 200 ≤ status
      → status < 300
      → GivesStored status body faults
          (on_response marks s status body rows)
          (with_scope s later (faults, on_response marks s status body rows))
  unfolding on_response mark_completed
  with_scope-replays s others later keys rows marks status body faults h low high =
      let r : IdempotencyRecord B = new_record s in
      let stored = update_where (of_scope s) (complete_with status body) rows in
      let kept : on_response marks s status body rows ≡ stored = ground arith in
      rw kept (
        subst (GivesStored status body faults stored)
          (sym (
            with_scope-by_row s later faults stored (complete_with status body r) (
              find?-update_where (of_scope s) (complete_with status body) rows r (λ x. refl)
                (watched-found s others keys rows marks h))))
          (go stored (fails faults) (fails (rest_of faults)) refl refl))
    where
      go :
          (stored : List (IdempotencyRecord B)) (b c : Bool)
          → fails faults ≡ b
          → fails (rest_of faults) ≡ c
          → GivesStored status body faults stored (
              if b
              then (threw, stored)
              else if c
              then (threw, stored)
              else (replayed status (some body), stored))
      go stored true c e f = inr (refl, inl e)
      go stored false true e f = inr (refl, inr f)
      go stored false false e f = inl refl

  -- `n` intervals in which no other request touches the table.
  abbrev pub idle : ℕ → Others B
  idle zero = []
  idle (suc n) = (λ rows. rows) ∷ idle n

  poll-idle :
      (s : Scope) (n : ℕ) (rows : List (IdempotencyRecord B)) (r : IdempotencyRecord B)
      → find? (of_scope s) rows ≡ some r
      → r.status ≡ processing
      → poll s (idle n) ([], rows) ≡ (replied timed_out, rows)
  unfolding poll try_insert
  poll-idle s zero rows r found busy = refl
  poll-idle s (suc n) rows r found busy = rw found (rw busy (poll-idle s n rows r found busy))

  -- A retry of a failed request that fails again leaves its key in progress: what is sent then is
  -- answered, however often it polls, that the key is still being processed, and runs nothing.
  pub with_scope-stuck :
      (s : Scope) (others : Others B) (keys : Keys B) (rows : List (IdempotencyRecord B))
      (status : ℕ) (body : B) (polls : ℕ)
      → with_scope s others keys ≡ (watched false, rows)
      → 300 ≤ status
      → with_scope s (idle polls) ([], on_response false s status body rows)
        ≡ (replied timed_out, rows)
  unfolding on_response
  with_scope-stuck s others keys rows status body polls h high =
      let kept : on_response false s status body rows ≡ rows = ground arith in
      let found = watched-found s others keys rows false h in
      rw kept (
        with_scope-by_row s (idle polls) [] rows (new_record s) found
        ∙ poll-idle s polls rows (new_record s) found refl)
