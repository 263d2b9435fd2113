-- ===== src/Tests/Middleware.antt =====
-- Requests on their way through the middleware.
use vanguard_settlement_engi.Base.{ℕ, false, [], ◌∷◌, refl, ◌≡◌, ◌⊎◌, ◌↔◌, arith}
use vanguard_settlement_engi.Errors.{zod_error, not_an_error, database, unique_violation}
use vanguard_settlement_engi.Api.Replies.{own_message}
use vanguard_settlement_engi.Api.ErrorHandler.{error_handler, error_handler-internal}
use vanguard_settlement_engi.Api.Idempotency.{
  Scope, IdempotencyRecord, failed, new_record, with_scope, replied, on_response, timed_out,
  try_insert, delete_key,
}
use vanguard_settlement_engi.Api.Idempotency.Laws.{with_scope-stuck, idle}

error_handler-internal_example :
    let e = database unique_violation in
    (((error_handler e).status ≡ 500) ↔ (e ≡ not_an_error))
    × (((error_handler e).message ≡ own_message e) ⊎ ((e ≡ zod_error) ⊎ (e ≡ not_an_error)))
error_handler-internal_example = error_handler-internal (database unique_violation)

abbrev scope : Scope
scope = record { key = "k"; org_id = 1; path = "/" }

abbrev body : ℕ
body = 7

abbrev failed_row : IdempotencyRecord ℕ
failed_row = record (new_record scope) { status = failed }

with_scope-stuck_example :
    with_scope scope (idle 2) ([], on_response false scope 400 body (new_record scope ∷ []))
    ≡ (replied timed_out, new_record scope ∷ [])
unfolding with_scope try_insert delete_key
with_scope-stuck_example =
    with_scope-stuck scope [] ([], failed_row ∷ []) (new_record scope ∷ []) 400 body 2 refl
      (omega arith)
