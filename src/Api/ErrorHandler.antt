-- ===== src/Api/ErrorHandler.antt =====
-- services/middleware/error-handler.ts: which response an error becomes.
use vanguard_settlement_engi.Base.{ℕ, Bool, true, false, ◌≡◌, ◌≢◌, ◌↔◌, ◌⊎◌, arith, if◌then◌else◌}
use vanguard_settlement_engi.Errors.{
  Thrown, invalid_transition, invoice_not_found, unauthorised_actor, invoice_not_eligible,
  duplicate_payment, van_not_found, van_already_exists, invalid_credentials, account_inactive,
  zod_error, not_an_error,
}
use vanguard_settlement_engi.Api.Replies.{
  ErrorCode, unauthorized, forbidden, validation_error, invalid_transition_code,
  invoice_not_eligible_code, van_already_exists_code, invalid_credentials_code,
  account_inactive_code, invoice_not_found_code, van_not_found_code, duplicate_payment_code,
  bad_request, internal_error, Shown, own_message, fixed, Reply,
}

-- The classes that `instanceof` asks for; `any_error` is `Error` itself.
pub data ErrorClass : Type 0 where
  invalid_credentials_class account_inactive_class zod_class invalid_transition_class : ErrorClass
  not_eligible_class van_exists_class unauthorised_class invoice_missing_class : ErrorClass
  van_missing_class duplicate_class any_error : ErrorClass

abbrev pub instance_of : ErrorClass → Thrown → Bool
instance_of invalid_credentials_class invalid_credentials = true
instance_of account_inactive_class account_inactive = true
instance_of zod_class zod_error = true
instance_of invalid_transition_class (invalid_transition _ _) = true
instance_of not_eligible_class (invoice_not_eligible _ _) = true
instance_of van_exists_class (van_already_exists _) = true
instance_of unauthorised_class (unauthorised_actor _) = true
instance_of invoice_missing_class (invoice_not_found _) = true
instance_of van_missing_class (van_not_found _) = true
instance_of duplicate_class (duplicate_payment _) = true
instance_of any_error not_an_error = false
instance_of any_error _ = true
instance_of _ _ = false

abbrev pub send : ℕ → ErrorCode → Shown → Bool → Reply
send status code message details = record {
  status = status;
  code = code;
  message = message;
  details = details;
}

-- The tests in the order of the source, those that are asked twice included.
unfoldable pub error_handler : Thrown → Reply
error_handler e =
    if instance_of invalid_credentials_class e
    then send 401 unauthorized (own_message e) false
    else if instance_of account_inactive_class e
    then send 403 forbidden (own_message e) false
    else if instance_of zod_class e
    then send 400 validation_error (fixed "Request body failed validation") true
    else if instance_of invalid_transition_class e
    then send 409 invalid_transition_code (own_message e) false
    else if instance_of not_eligible_class e
    then send 409 invoice_not_eligible_code (own_message e) false
    else if instance_of van_exists_class e
    then send 409 van_already_exists_code (own_message e) false
    else if instance_of invalid_credentials_class e
    then send 401 invalid_credentials_code (own_message e) false
    else if instance_of account_inactive_class e
    then send 401 account_inactive_code (own_message e) false
    else if instance_of unauthorised_class e
    then send 403 forbidden (own_message e) false
    else if instance_of invoice_missing_class e
    then send 404 invoice_not_found_code (own_message e) false
    else if instance_of van_missing_class e
    then send 404 van_not_found_code (own_message e) false
    else if instance_of duplicate_class e
    then send 409 duplicate_payment_code (own_message e) false
    else if instance_of any_error e
    then send 400 bad_request (own_message e) false
    else send 500 internal_error (fixed "An unexpected error occurred. Please try again.") false

-- The codes INVALID_CREDENTIALS and ACCOUNT_INACTIVE are never sent: the two errors are answered as
-- UNAUTHORIZED and FORBIDDEN before.
error_handler-unsent :
    (e : Thrown)
    → ((error_handler e).code ≢ invalid_credentials_code)
      × ((error_handler e).code ≢ account_inactive_code)
unfolding error_handler
error_handler-unsent e = (ground arith, ground arith)

-- A 500 is sent for nothing but a thrown value that is no `Error`; every other message but that of a
-- failed validation is the error's own, those of the database and of a queue included.
pub error_handler-internal :
    (e : Thrown)
    → (((error_handler e).status ≡ 500) ↔ (e ≡ not_an_error))
      × (((error_handler e).message ≡ own_message e) ⊎ ((e ≡ zod_error) ⊎ (e ≡ not_an_error)))
unfolding error_handler
error_handler-internal e = ground arith
