-- ===== src/Api/Idempotency.antt =====
-- services/middleware/idempotency.ts and core/repositories/idempotency.repository.ts: the table
-- `idempotency_keys` of infra/db/migrations/V003__idempotency_keys.sql, and what the middleware does
-- with a request that carries a key. The body of a response is any type. The columns that nothing
-- reads (`id`, `request_method`, `expires_at` and the timestamps) are left out.
pub mod Runs
pub mod Laws
use vanguard_settlement_engi.Base.{
  ℕ, String, Bool, true, false, not, ◌&&◌, Option, none, some, List, [], ◌∷◌, ◌++◌, ◌==◌, leb, ltb,
  str_eq, find?, any, select, update_where, is_some, if◌then◌else◌, arith,
}
use vanguard_settlement_engi.Errors.{Result, ok, err, database, foreign_key_violation}
use vanguard_settlement_engi.Api.Replies.{
  Reply, fixed, unauthenticated, idempotent_request_failed, concurrent_request_timeout,
}

pub data KeyStatus : Type 0 where
  processing completed failed : KeyStatus

-- What a key is unique with.
pub record Scope : Type 0 where
  pub key : String
  pub org_id : ℕ
  pub path : String

pub record IdempotencyRecord (B : Type 0) : Type 0 where
  pub scope : Scope
  pub status : KeyStatus
  pub response_status : Option ℕ
  pub response_body : Option B

-- The next query of the table fails; none does after the list's end.
abbrev pub fails : List Bool → Bool
fails [] = false
fails (fault ∷ faults) = fault

abbrev pub rest_of : List Bool → List Bool
rest_of [] = []
rest_of (fault ∷ faults) = faults

-- The queries to fail, and the rows.
abbrev pub Keys : Type 0 → Type 0
Keys B = List Bool × List (IdempotencyRecord B)

-- What other requests do to the rows, in each interval of the loop.
abbrev pub Others : Type 0 → Type 0
Others B = List (List (IdempotencyRecord B) → List (IdempotencyRecord B))

abbrev pub same_scope : Scope → Scope → Bool
same_scope a b = str_eq a.key b.key && (a.org_id == b.org_id && str_eq a.path b.path)

module _ {B : Type 0} where
  abbrev pub of_scope : Scope → IdempotencyRecord B → Bool
  of_scope s r = same_scope r.scope s

  abbrev pub new_record : Scope → IdempotencyRecord B
  new_record s = record {
    scope = s;
    status = processing;
    response_status = none;
    response_body = none;
  }

  -- Behind the INSERT, which a row that is there refuses, and then behind the SELECT of it: the row
  -- and whether it is new, or `none` where a query throws.
  abbrev pub inserted :
      Scope
      → List Bool
      → List (IdempotencyRecord B)
      → Option (IdempotencyRecord B)
      → Option (IdempotencyRecord B × Bool) × Keys B
  inserted s faults rows none = (some (new_record s, true), (faults, rows ++ new_record s ∷ []))
  inserted s faults rows (some r) =
      if fails faults
      then (none, (rest_of faults, rows))
      else (some (r, false), (rest_of faults, rows))

  unfoldable pub try_insert : Scope → Keys B → Option (IdempotencyRecord B × Bool) × Keys B
  try_insert s (faults, rows) =
      if fails faults
      then (none, (rest_of faults, rows))
      else inserted s (rest_of faults) rows (find? (of_scope s) rows)

  abbrev pub complete_with : ℕ → B → IdempotencyRecord B → IdempotencyRecord B
  complete_with status body r = record r {
    status = completed;
    response_status = some status;
    response_body = some body;
  }

  unfoldable pub mark_completed :
      Scope → ℕ → B → List (IdempotencyRecord B) → List (IdempotencyRecord B)
  mark_completed s status body rows = update_where (of_scope s) (complete_with status body) rows

  abbrev pub fail : IdempotencyRecord B → IdempotencyRecord B
  fail r = record r { status = failed }

  unfoldable pub mark_failed : Scope → List (IdempotencyRecord B) → List (IdempotencyRecord B)
  mark_failed s rows = update_where (of_scope s) fail rows

  -- Whether the row is gone.
  unfoldable pub delete_key : Scope → Keys B → Bool × Keys B
  delete_key s (faults, rows) =
      if fails faults
      then (false, (rest_of faults, rows))
      else (true, (rest_of faults, select (λ r. not (of_scope s r)) rows))

abbrev pub timed_out : Reply
timed_out = record {
  status = 409;
  code = concurrent_request_timeout;
  message =
      fixed
        "A request with this Idempotency-Key is still being processed. Retry after 30 seconds or use a new key.";
  details = false;
}

abbrev pub failed_reply : Reply
failed_reply = record {
  status = 409;
  code = idempotent_request_failed;
  message = fixed "The original request failed. Retry with a new Idempotency-Key.";
  details = false;
}

-- What the middleware does with a request: `next()` as it is, `next()` with the response watched
-- (`true` where a failure is recorded too), a stored response, one of its own, or `next(err)`.
pub data Outcome (B : Type 0) : Type 0 where
  passed_on : Outcome B
  watched : Bool → Outcome B
  replayed : ℕ → Option B → Outcome B
  replied : Reply → Outcome B
  threw : Outcome B

abbrev pub or_200 : Option ℕ → ℕ
or_200 none = 200
or_200 (some status) = status

module _ {B : Type 0} where
  -- The wrapped `res.json`, behind the response, where its query goes through.
  unfoldable pub on_response :
      Bool → Scope → ℕ → B → List (IdempotencyRecord B) → List (IdempotencyRecord B)
  unfolding mark_completed mark_failed
  on_response marks s status body rows =
      if leb 200 status && ltb status 300
      then mark_completed s status body rows
      else if marks
      then mark_failed s rows
      else rows

  abbrev pub replay_of : IdempotencyRecord B → Outcome B
  replay_of r = replayed (or_200 r.response_status) r.response_body

  -- One turn of the loop, where `rest` is what the further ones come to.
  abbrev pub polled :
      Option (IdempotencyRecord B × Bool) × Keys B
      → Outcome B × List (IdempotencyRecord B)
      → Outcome B × List (IdempotencyRecord B)
  polled (none, (faults, rows)) rest = (threw, rows)
  polled (some (r, is_new), (faults, rows)) rest = elim r.status [
    | completed ↦ (replay_of r, rows)
    | failed ↦ (replied failed_reply, rows)
    | processing ↦ rest
  ]

  -- The loop, once per interval until the deadline; `others` is what other requests do to the table
  -- in each interval.
  unfoldable pub poll : Scope → Others B → Keys B → Outcome B × List (IdempotencyRecord B)
  unfolding try_insert
  poll s [] (faults, rows) = (replied timed_out, rows)
  poll s (other ∷ others) (faults, rows) =
      let found = try_insert s (faults, other rows) in
      let rest = poll s others found.1 in polled found rest

  abbrev pub watched_if :
      Option (IdempotencyRecord B × Bool) × Keys B → Outcome B × List (IdempotencyRecord B)
  watched_if (none, (faults, rows)) = (threw, rows)
  watched_if (some (r, is_new), (faults, rows)) = (watched false, rows)

  -- A failed row is deleted and inserted anew.
  abbrev pub renewed : Scope → Bool × Keys B → Outcome B × List (IdempotencyRecord B)
  renewed s (false, (faults, rows)) = (threw, rows)
  renewed s (true, keys) = watched_if (try_insert s keys)

  -- Behind the first `tryInsert`.
  abbrev pub by_status :
      Scope → Others B → IdempotencyRecord B → Keys B → Outcome B × List (IdempotencyRecord B)
  by_status s others r keys = elim r.status [
    | completed ↦ (replay_of r, keys.1)
    | failed ↦ renewed s (delete_key s keys)
    | processing ↦ poll s others keys
  ]

  abbrev pub by_row :
      Scope
      → Others B
      → Option (IdempotencyRecord B × Bool) × Keys B
      → Outcome B × List (IdempotencyRecord B)
  by_row s others (none, (faults, rows)) = (threw, rows)
  by_row s others (some (r, true), (faults, rows)) = (watched true, rows)
  by_row s others (some (r, false), keys) = by_status s others r keys

  unfoldable pub with_scope : Scope → Others B → Keys B → Outcome B × List (IdempotencyRecord B)
  unfolding try_insert delete_key poll
  with_scope s others keys = by_row s others (try_insert s keys)

-- The parts of a request that the middleware reads.
pub record KeyedRequest : Type 0 where
  pub is_post : Bool
  pub idempotency_key : Option String
  pub user_org : Option ℕ
  pub path : String

module _ {B : Type 0} where
  abbrev pub with_user :
      KeyedRequest → String → Option ℕ → Others B → Keys B → Outcome B × List (IdempotencyRecord B)
  with_user req key none others keys = (
    replied (record {
      status = 401;
      code = unauthenticated;
      message = fixed "Authentication required for idempotent requests";
      details = false;
    }),
    keys.1,
  )
  with_user req key (some org_id) others keys =
      with_scope (record { key = key; org_id = org_id; path = req.path }) others keys

  abbrev pub with_key :
      KeyedRequest → Option String → Others B → Keys B → Outcome B × List (IdempotencyRecord B)
  with_key req none others keys = (passed_on, keys.1)
  with_key req (some key) others keys =
      if str_eq key "" then (passed_on, keys.1) else with_user req key req.user_org others keys

  unfoldable pub idempotency_guard :
      KeyedRequest → Others B → Keys B → Outcome B × List (IdempotencyRecord B)
  unfolding with_scope
  idempotency_guard req others keys =
      if req.is_post then with_key req req.idempotency_key others keys else (passed_on, keys.1)
