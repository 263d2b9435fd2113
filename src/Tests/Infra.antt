-- ===== src/Tests/Infra.antt =====
-- Amounts as they are written, jobs with failures, and the operations team's routes.
use vanguard_settlement_engi.Base.{
  ℕ, String, Bool, true, false, none, some, List, [], ◌∷◌, length, refl, ◌≡◌, str_eq, if◌then◌else◌,
}
use vanguard_settlement_engi.Domain.{OrgRole}
use vanguard_settlement_engi.Errors.{Result, ok}
use vanguard_settlement_engi.Api.Authenticate.{Verified, valid, token_expired, Request}
use vanguard_settlement_engi.Api.Routes.Admin.{
  Admitted, get_failed_jobs, post_retry, delete_job, admin_routes-Admitted,
}
use vanguard_settlement_engi.Infra.Currency.{format_amount}
use vanguard_settlement_engi.Infra.Receipt.{SettlementReceiptPdfPayload}
use vanguard_settlement_engi.Infra.Mail.{InvoiceApprovedPayload}
use vanguard_settlement_engi.Infra.Worker.{Outside, receipt_job, run_job}
use vanguard_settlement_engi.Infra.FailedJobs.{Bull, JobRow, Queues}

-- The groups of lakhs and crores.
in_lakhs : format_amount 123456705 ≡ "12,34,567.05"
unfolding format_amount
in_lakhs = refl

abbrev payload : SettlementReceiptPdfPayload
payload = record {
  invoice_id = "10";
  invoice_number = "INV-1";
  supplier_id = "1";
  buyer_id = "2";
  amount_cents = 100;
  currency = "INR";
  settled_at = "2026-01-02";
}

abbrev same_text : String → String
same_text date = date

abbrev approval_payload : InvoiceApprovedPayload
approval_payload = record {
  invoice_id = "10";
  invoice_number = "INV-1";
  supplier_id = "1";
  supplier_email = "s@s.in";
  buyer_id = "2";
  amount_cents = 100;
  currency = "INR";
  due_date = "2026-01-02";
  approved_at = "2026-01-01";
}

abbrev currency_text : ℕ → String → String
currency_text cents currency = currency

abbrev outside : List Bool → Outside
outside faults = record { mails = []; files = []; receipt_paths = []; faults = faults }

-- It leaves two files, of which one is recorded.
two_files :
    length
      (run_job currency_text same_text same_text
        ("1" ∷ "2" ∷ "3" ∷ [])
        (receipt_job payload)
        (outside (false ∷ true ∷ []))).1.files
    ≡ 2
unfolding run_job
two_files = refl

abbrev failed_job : String → ℕ → JobRow
failed_job id finished_on = record {
  id = some id;
  name = "invoice.approved.notify";
  failed_reason = none;
  attempts_made = 3;
  finished_on = some finished_on;
}

-- A queue is its failed jobs, of which a retry or a removal takes the first.
abbrev first_of : List JobRow → Result (List JobRow)
first_of [] = ok []
first_of (job ∷ jobs) = ok jobs

abbrev pub bull : Bull (List JobRow)
bull = record {
  get_failed = ok;
  from_id = λ jobs id. ok (some (failed_job id 0));
  retry = λ job jobs. first_of jobs;
  remove = λ job jobs. first_of jobs;
}

abbrev pub queues : Queues (List JobRow)
queues = record {
  notification = failed_job "1" 10 ∷ failed_job "2" 30 ∷ [];
  document = failed_job "3" 20 ∷ [];
}

abbrev verify : String → Verified
verify token =
    if str_eq token "p"
    then valid (record { sub = 9; email = "p@p.in"; role = OrgRole.platform_admin; org_id = 9 })
    else token_expired

abbrev by_administrator : Request
by_administrator = record { authorization = some "Bearer p"; user = none }

admin_routes-Admitted_example :
    Admitted verify by_administrator queues (get_failed_jobs bull verify by_administrator queues)
    × Admitted verify by_administrator queues
        (post_retry bull verify "notification" "1" by_administrator queues)
    × Admitted verify by_administrator queues
        (delete_job bull verify "notification" "1" by_administrator queues)
admin_routes-Admitted_example =
    admin_routes-Admitted verify by_administrator queues bull "notification" "1"
