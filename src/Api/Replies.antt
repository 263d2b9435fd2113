-- ===== src/Api/Replies.antt =====
-- The error responses of the middleware: `{ success: false, error: { code, message, details } }`.
use vanguard_settlement_engi.Base.{ℕ, String, Bool}
use vanguard_settlement_engi.Errors.{Thrown}
use vanguard_settlement_engi.Domain.{OrgRole}

-- The `code` strings.
pub data ErrorCode : Type 0 where
  unauthorized forbidden validation_error invalid_transition_code invoice_not_eligible_code :
      ErrorCode
  van_already_exists_code invalid_credentials_code account_inactive_code : ErrorCode
  invoice_not_found_code van_not_found_code duplicate_payment_code bad_request internal_error :
      ErrorCode
  missing_token invalid_token unauthenticated : ErrorCode
  idempotent_request_failed concurrent_request_timeout : ErrorCode
  missing_webhook_signature invalid_webhook_signature : ErrorCode

-- The `message`: the error's own, or a text that names nothing of the error.
pub data Shown : Type 0 where
  own_message : Thrown → Shown
  fixed : String → Shown
  role_not_permitted : OrgRole → Shown
  -- `FAILED. Expected: ${expectedSignature}`
  failed_expected : String → Shown

pub record Reply : Type 0 where
  pub status : ℕ
  pub code : ErrorCode
  pub message : Shown
  -- the field errors of a `ZodError`
  pub details : Bool
