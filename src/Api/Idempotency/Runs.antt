-- ===== src/Api/Idempotency/Runs.antt =====
-- What the guard finds and leaves behind, whatever queries of the table fail.
use vanguard_settlement_engi.Base.{
  Bool, true, false, not, Option, none, some, List, [], ◌∷◌, eq_iff, find?, find?-append, select,
  ◌≡◌, ◌≢◌, refl, arith, sym, subst, if◌then◌else◌,
}
use vanguard_settlement_engi.Api.Idempotency.{
  KeyStatus, processing, completed, failed, Scope, IdempotencyRecord, same_scope, of_scope, Keys,
  fails, rest_of, new_record, try_insert, delete_key, Outcome, threw, by_row, passed_on, watched,
  replayed, replied, poll, by_status, with_scope, inserted, renewed, watched_if, Others, polled,
  replay_of, failed_reply,
}

same_scope_refl : (s : Scope) → same_scope s s ≡ true
same_scope_refl s = ground (arith, eq_iff s.key s.key, eq_iff s.path s.path)

pub either_branch :
    {A : Type 0} (P : A → Type 0) (b : Bool) (x y : A) → P x → P y → P (if b then x else y)
either_branch P true x y h k = h
either_branch P false x y h k = k

module _ {B : Type 0} where
  -- Some outcome that is not `next()`.
  abbrev pub NotRun : Outcome B → Type 0
  NotRun passed_on = ⊥
  NotRun (watched marks) = ⊥
  NotRun (replayed status body) = Unit
  NotRun (replied reply) = Unit
  NotRun threw = Unit

  polled-NotRun :
      (found : Option (IdempotencyRecord B × Bool) × Keys B)
      (rest : Outcome B × List (IdempotencyRecord B))
      → NotRun rest.0
      → NotRun (polled found rest).0
  polled-NotRun (none, (faults, rows)) rest h = tt
  polled-NotRun (some (r, is_new), (faults, rows)) rest h = go r.status
    where
      go :
          (k : KeyStatus)
          → let x : Outcome B × List (IdempotencyRecord B) = elim k [
            | completed ↦ (replay_of r, rows)
            | failed ↦ (replied failed_reply, rows)
            | processing ↦ rest
          ] in
            NotRun x.0
      go completed = tt
      go failed = tt
      go processing = h

  -- Who waits for another request runs nothing.
  poll-NotRun : (s : Scope) (others : Others B) (keys : Keys B) → NotRun (poll s others keys).0
  unfolding poll
  poll-NotRun s [] (faults, rows) = tt
  poll-NotRun s (other ∷ others) (faults, rows) =
      let found = try_insert s (faults, other rows) in
      polled-NotRun found (poll s others found.1) (poll-NotRun s others found.1)

  -- A key with no row, or with a failed one; only the first run records a failure.
  abbrev pub MayRun : Option (IdempotencyRecord B) → Bool → Type 0
  MayRun none marks = marks ≡ true
  MayRun (some r) marks = (marks ≡ false) × (r.status ≡ failed)

  -- What is there behind a run: a row in progress.
  abbrev pub Runs :
      Scope → Option (IdempotencyRecord B) → Outcome B × List (IdempotencyRecord B) → Type 0
  Runs s o (passed_on, rows) = ⊥
  Runs s o (watched marks, rows) = MayRun o marks × (find? (of_scope s) rows ≡ some (new_record s))
  Runs s o (replayed status body, rows) = Unit
  Runs s o (replied reply, rows) = Unit
  Runs s o (threw, rows) = Unit

  NotRun-Runs :
      (s : Scope) (o : Option (IdempotencyRecord B)) (x : Outcome B × List (IdempotencyRecord B))
      → NotRun x.0
      → Runs s o x
  NotRun-Runs s o (passed_on, rows) h = h
  NotRun-Runs s o (watched marks, rows) h = absurd h
  NotRun-Runs s o (replayed status body, rows) h = tt
  NotRun-Runs s o (replied reply, rows) h = tt
  NotRun-Runs s o (threw, rows) h = tt

  find?-select :
      (p : IdempotencyRecord B → Bool) (rows : List (IdempotencyRecord B))
      → find? p (select (λ r. not (p r)) rows) ≡ none
  find?-select p [] = refl
  find?-select p (r ∷ rows) = ground (arith, find?-select p rows)

  module _ (s : Scope) (others : Others B) where
    -- A row that is inserted anew behind its deletion.
    renewed-Runs :
        (r : IdempotencyRecord B) (faults : List Bool) (rows : List (IdempotencyRecord B))
        → r.status ≡ failed
        → Runs s (some r) (renewed s (delete_key s (faults, rows)))
    unfolding delete_key try_insert
    renewed-Runs r faults rows q =
        let left = select (λ x. not (of_scope s x)) rows in
        let none_left = find?-select (of_scope s) rows in
        either_branch (λ y. Runs s (some r) (renewed s y)) (fails faults) _ _ tt
          (either_branch (λ y. Runs s (some r) (watched_if y)) (fails (rest_of faults)) _ _ tt
            (subst
              (λ o. Runs s (some r) (watched_if (inserted s (rest_of (rest_of faults)) left o)))
              (sym none_left)
              (
                (refl, q),
                find?-append (of_scope s) left (new_record s) none_left (same_scope_refl s),
              )))

    by_status-Runs :
        (r : IdempotencyRecord B) (keys : Keys B) → Runs s (some r) (by_status s others r keys)
    by_status-Runs r (faults, rows) = go r.status refl
      where
        go :
            (k : KeyStatus)
            → r.status ≡ k
            → Runs s (some r) (elim k [
              | completed ↦ (replay_of r, rows)
              | failed ↦ renewed s (delete_key s (faults, rows))
              | processing ↦ poll s others (faults, rows)
            ])
        go completed q = tt
        go failed q = renewed-Runs r faults rows q
        go processing q = NotRun-Runs s (some r) _ (poll-NotRun s others (faults, rows))

    pub with_scope-Runs :
        (keys : Keys B) → Runs s (find? (of_scope s) keys.1) (with_scope s others keys)
    unfolding with_scope try_insert
    with_scope-Runs (faults, rows) = go (find? (of_scope s) rows) refl
      where
        go :
            (o : Option (IdempotencyRecord B))
            → find? (of_scope s) rows ≡ o
            → Runs s o (
                by_row s others (
                  if fails faults
                  then (none, (rest_of faults, rows))
                  else inserted s (rest_of faults) rows o))
        go none e =
            either_branch (λ y. Runs s none (by_row s others y)) (fails faults) _ _ tt
              (refl, find?-append (of_scope s) rows (new_record s) e (same_scope_refl s))
        go (some r) e =
            either_branch (λ y. Runs s (some r) (by_row s others y)) (fails faults) _ _ tt
              (either_branch (λ y. Runs s (some r) (by_row s others y)) (fails (rest_of faults)) _ _
                tt (by_status-Runs r (rest_of (rest_of faults), rows)))

    -- A request with a key is never let through unwatched.
    pub with_scope-ne-passed_on : (keys : Keys B) → (with_scope s others keys).0 ≢ passed_on
    with_scope-ne-passed_on keys e = go (find? (of_scope s) keys.1) _ (with_scope-Runs keys) e
      where
        go :
            (o : Option (IdempotencyRecord B)) (x : Outcome B × List (IdempotencyRecord B))
            → Runs s o x
            → x.0 ≢ passed_on
        go o (passed_on, rows) h e = h
        go o (watched marks, rows) h e = cc
        go o (replayed status body, rows) h e = cc
        go o (replied reply, rows) h e = cc
        go o (threw, rows) h e = cc

    -- A run leaves a row in progress for its key.
    pub watched-found :
        (keys : Keys B) (rows : List (IdempotencyRecord B)) (marks : Bool)
        → with_scope s others keys ≡ (watched marks, rows)
        → find? (of_scope s) rows ≡ some (new_record s)
    watched-found keys rows marks e =
        (subst (Runs s (find? (of_scope s) keys.1)) e (with_scope-Runs keys)).1

    -- The middleware goes by the row that is there, where its two queries go through.
    pub with_scope-by_row :
        (faults : List Bool) (rows : List (IdempotencyRecord B)) (r : IdempotencyRecord B)
        → find? (of_scope s) rows ≡ some r
        → with_scope s others (faults, rows) ≡ (
            if fails faults
            then (threw, rows)
            else if fails (rest_of faults)
            then (threw, rows)
            else by_status s others r (rest_of (rest_of faults), rows))
    unfolding with_scope try_insert
    with_scope-by_row faults rows r e = rw e (go (fails faults) (fails (rest_of faults)))
      where
        go :
            (b c : Bool)
            → by_row s others (
                if b
                then (none, (rest_of faults, rows))
                else if c
                then (none, (rest_of (rest_of faults), rows))
                else (some (r, false), (rest_of (rest_of faults), rows)))
              ≡ (if b
                  then (threw, rows)
                  else if c
                  then (threw, rows)
                  else by_status s others r (rest_of (rest_of faults), rows))
        go true c = refl
        go false true = refl
        go false false = refl

  -- While a run is in progress, or where its outcome was not recorded, no other is begun with its key.
  pub watched-NotRun :
      (s : Scope) (others later : Others B) (keys : Keys B) (rows : List (IdempotencyRecord B))
      (marks : Bool) (faults : List Bool)
      → with_scope s others keys ≡ (watched marks, rows)
      → NotRun (with_scope s later (faults, rows)).0
  watched-NotRun s others later keys rows marks faults e =
      subst (λ (x : Outcome B × List (IdempotencyRecord B)). NotRun x.0)
        (sym (
          with_scope-by_row s later faults rows (new_record s)
            (watched-found s others keys rows marks e)))
        (either_branch (λ (x : Outcome B × List (IdempotencyRecord B)). NotRun x.0) (fails faults) _
          _ tt
          (either_branch (λ (x : Outcome B × List (IdempotencyRecord B)). NotRun x.0)
            (fails (rest_of faults)) _ _ tt (poll-NotRun s later (rest_of (rest_of faults), rows))))
