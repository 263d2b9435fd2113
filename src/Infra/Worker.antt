-- ===== src/Infra/Worker.antt =====
-- infra/queue: the registry, the options of a job, the two handlers, and how the worker goes through a
-- job's attempts. BullMQ is not part of the repository; by its documentation a job is tried until it
-- succeeds or its attempts are used up, with an exponential backoff between them.
pub mod Attempts
use vanguard_settlement_engi.Base.{
  ℕ, zero, suc, ◌+◌, ◌*◌, ◌-◌, String, Bool, true, false, Option, none, some, List, [], ◌∷◌, ◌++◌,
  leb, if◌then◌else◌,
}
use Prim.Native.Nat.{◌^◌}
use vanguard_settlement_engi.Infra.Receipt.{
  SettlementReceiptPdfPayload, Draw, settlement_receipt, receipt_path,
}
use vanguard_settlement_engi.Infra.Mail.{InvoiceApprovedPayload, Email, invoice_approved_email}

pub data QueueName : Type 0 where
  notification document risk : QueueName

pub data JobType : Type 0 where
  invoice_submitted invoice_approved invoice_funded invoice_repaid : JobType
  settlement_receipt_pdf invoice_summary_pdf credit_bureau_check : JobType

abbrev pub queue_name : QueueName → String
queue_name notification = "notification"
queue_name document = "document"
queue_name risk = "risk"

abbrev pub job_type_name : JobType → String
job_type_name invoice_submitted = "invoice.submitted.notify"
job_type_name invoice_approved = "invoice.approved.notify"
job_type_name invoice_funded = "invoice.funded.notify"
job_type_name invoice_repaid = "invoice.repaid.notify"
job_type_name settlement_receipt_pdf = "settlement.receipt.pdf"
job_type_name invoice_summary_pdf = "invoice.summary.pdf"
job_type_name credit_bureau_check = "risk.credit.bureau.check"

-- `defaultJobOptions`; the ages are seconds.
pub record JobOptions : Type 0 where
  pub attempts : ℕ
  pub backoff_delay_ms : ℕ
  pub keep_completed_age : ℕ
  pub keep_completed_count : ℕ
  pub keep_failed_age : ℕ

abbrev pub default_job_options : JobOptions
default_job_options = record {
  attempts = 3;
  backoff_delay_ms = 2000;
  keep_completed_age = 86400;
  keep_completed_count = 100;
  keep_failed_age = 604800;
}

-- A job with its payload; one of any other name has no handler.
pub data QueuedJob : Type 0 where
  approved_job : InvoiceApprovedPayload → QueuedJob
  receipt_job : SettlementReceiptPdfPayload → QueuedJob
  unhandled : String → QueuedJob

-- What the handlers act on: the mail that has been sent, the files written, and the updates of
-- `invoices.pdf_receipt_path`; `faults` says which of the calls to come fail.
pub record Outside : Type 0 where
  pub mails : List Email
  pub files : List (String × List Draw)
  pub receipt_paths : List (String × String)
  pub faults : List Bool

-- Whether a handler returned, and what it has done.
abbrev pub Done : Type 0
Done = Bool × Outside

abbrev pub call_of : List Bool → (Outside → Outside) → Outside → Done
call_of [] act o = (true, act o)
call_of (true ∷ rest) act o = (false, record o { faults = rest })
call_of (false ∷ rest) act o = (true, act (record o { faults = rest }))

-- A call that leaves the process.
abbrev pub call : (Outside → Outside) → Outside → Done
call act o = call_of o.faults act o

infixl 5 ◌and_then◌
abbrev pub ◌and_then◌ : Done → (Outside → Done) → Done
(true, o) and_then k = k o
(false, o) and_then k = (false, o)

-- The next attempt, where this one failed.
infixl 4 ◌or_again◌
abbrev pub ◌or_again◌ : Done → (Outside → Done) → Done
(true, o) or_again k = (true, o)
(false, o) or_again k = k o

module _ (format_currency : ℕ → String → String) (local_date format_date : String → String) where
  -- `sendEmail`
  abbrev pub send_email : Email → Outside → Outside
  send_email e o = record o { mails = o.mails ++ e ∷ [] }

  abbrev pub write_receipt : String → SettlementReceiptPdfPayload → Outside → Outside
  write_receipt now p o = record o {
    files = o.files ++ (receipt_path p.invoice_id now, settlement_receipt format_date now p) ∷ [];
  }

  abbrev pub set_receipt_path : String → String → Outside → Outside
  set_receipt_path path invoice_id o = record o {
    receipt_paths = o.receipt_paths ++ (invoice_id, path) ∷ [];
  }

  unfoldable pub handle_invoice_approved : InvoiceApprovedPayload → Outside → Done
  handle_invoice_approved p o =
      call (send_email (invoice_approved_email format_currency local_date p)) o

  unfoldable pub handle_settlement_receipt : String → SettlementReceiptPdfPayload → Outside → Done
  handle_settlement_receipt now p o =
      call (write_receipt now p) o
      and_then call (set_receipt_path (receipt_path p.invoice_id now) p.invoice_id)

  -- The processor of both workers.
  unfoldable pub process : String → QueuedJob → Outside → Done
  unfolding handle_invoice_approved handle_settlement_receipt
  process now (approved_job p) o = handle_invoice_approved p o
  process now (receipt_job p) o = handle_settlement_receipt now p o
  process now (unhandled name) o = (true, o)

  -- The attempts that are left, each with its reading of the clock.
  unfoldable pub run_job : List String → QueuedJob → Outside → Done
  unfolding process
  run_job [] job o = (false, o)
  run_job (now ∷ later) job o = process now job o or_again run_job later job

-- `job.attemptsMade >= (job.opts.attempts ?? 1)`
abbrev pub or_one : Option ℕ → ℕ
or_one none = 1
or_one (some attempts) = attempts

unfoldable pub is_final_attempt : Option ℕ → ℕ → Bool
is_final_attempt attempts attempts_made = leb (or_one attempts) attempts_made
