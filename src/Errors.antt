-- ===== src/Errors.antt =====
-- What the program throws. The error classes of core/services/*.ts and
-- core/services/invoice/state-machine.ts are constructors; `new Error(text)` is `plain` with the
-- text; what the `pg` client or a queue throws is `database` or `queue_failure`.
use vanguard_settlement_engi.Base.{ℕ, String}
use vanguard_settlement_engi.Domain.{InvoiceStatus}

-- SQLSTATE 23505, 23503, 23514 and 22003, and a connection that is lost.
pub data PgCode : Type 0 where
  unique_violation foreign_key_violation check_violation out_of_range connection_failure : PgCode

-- The texts of `new Error(…)`, with what they interpolate.
pub data Message : Type 0 where
  amount_must_be_positive due_date_must_be_future signature_required : Message
  invoice_number_exists : String → Message
  invoice_missing row_missing : ℕ → Message
  van_needs_financing_requested : InvoiceStatus → Message
  van_has_expired van_is_settled : String → Message
  email_registered unknown_queue : String → Message
  job_not_found : String → String → Message

-- The argument of `VanNotFoundError`: an account number or an invoice's id.
pub data VanIdentifier : Type 0 where
  by_account : String → VanIdentifier
  by_invoice : ℕ → VanIdentifier

-- The two texts of `UnauthorisedActorError`.
pub data ActorRule : Type 0 where
  only_designated_buyer only_invoice_supplier : ActorRule

pub data Thrown : Type 0 where
  invalid_transition : InvoiceStatus → InvoiceStatus → Thrown
  invoice_not_found : ℕ → Thrown
  unauthorised_actor : ActorRule → Thrown
  invoice_not_eligible : ℕ → InvoiceStatus → Thrown
  duplicate_payment : String → Thrown
  van_not_found : VanIdentifier → Thrown
  van_already_exists : ℕ → Thrown
  invalid_credentials account_inactive : Thrown
  zod_error : Thrown
  plain : Message → Thrown
  database : PgCode → Thrown
  queue_failure : Thrown
  -- a field of `undefined` is read
  type_error : Thrown
  not_an_error : Thrown

pub data Result {ℓ} (A : Type ℓ) : Type ℓ where
  ok : A → Result A
  err : Thrown → Result A
