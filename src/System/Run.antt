-- ===== src/System/Run.antt =====
-- Any number of calls of the services, one transaction after the other, each with any failures.
use vanguard_settlement_engi.Base.{
  ℕ, String, Bool, false, List, [], ◌∷◌, ◌≡◌, ◌≢◌, refl, sym, ◌∙◌, All, All-map, arith,
}
use vanguard_settlement_engi.Domain.{
  Organisation, InvoiceStatus, VirtualAccount, funded, repaid, draft,
}
use vanguard_settlement_engi.Database.{Tables, Generated, OrganisationCredential}
use vanguard_settlement_engi.Database.Session.{World, request_on}
use vanguard_settlement_engi.Invoice.StateMachine.{is_valid_transition, valid_transitions}
use vanguard_settlement_engi.Invoice.Service.{
  SubmitInvoiceCommand, ApproveInvoiceCommand, RequestFinancingCommand, submit_invoice,
  approve_invoice, request_financing,
}
use vanguard_settlement_engi.Invoice.History.Writes.{replay-ne-funded}
use vanguard_settlement_engi.Risk.Types.{AssessInvoiceRiskCommand}
use vanguard_settlement_engi.Risk.Service.{assess_and_record}
use vanguard_settlement_engi.Van.Service.{
  Texts, CreateVanCommand, RecordPaymentCommand, create_van, record_payment, apply_payment,
}
use vanguard_settlement_engi.System.{IsConsistent}
use vanguard_settlement_engi.System.Calls.{
  IsKept, submit_invoice-Preserves, approve_invoice-Preserves, request_financing-Preserves,
  assess_and_record-Preserves, record_payment-Preserves, apply_payment-Preserves,
  create_van-Preserves,
}
use vanguard_settlement_engi.System.Submission.{Drafted-IsConsistent, Submitted-IsConsistent}
use vanguard_settlement_engi.System.Statements.{
  move_stmt-Keeps, approval_stmt-Keeps, assessment_stmt-Keeps,
}
use vanguard_settlement_engi.System.Payments.{payment_stmt-IsConsistent, opening_stmt-IsConsistent}

-- The calls that write. `pay_later` is a payment whose checks another request has overtaken: the
-- account it works with may be any reading of the row, old or wrong.
pub data Call : Type 0 where
  submit : SubmitInvoiceCommand → ℕ → Generated → Call
  approve : ApproveInvoiceCommand → ℕ → Generated → Call
  request : RequestFinancingCommand → ℕ → Generated → Call
  assess : AssessInvoiceRiskCommand → ℕ → Generated → Call
  open_account : CreateVanCommand → String → Generated → Call
  pay : RecordPaymentCommand → Generated → Call
  pay_later : RecordPaymentCommand → Generated → VirtualAccount → Call

module _ (texts : Texts) where
  abbrev pub run_call : Call → World → World
  run_call (submit cmd actor_id given) w = (submit_invoice cmd actor_id given w).1
  run_call (approve cmd actor_id given) w = (approve_invoice cmd actor_id given w).1
  run_call (request cmd actor_id given) w = (request_financing cmd actor_id given w).1
  run_call (assess cmd actor_id given) w = (assess_and_record cmd actor_id given w).1
  run_call (open_account cmd number given) w = (create_van texts cmd number given w).1
  run_call (pay cmd given) w = (record_payment texts cmd given w).1
  run_call (pay_later cmd given van) w = (apply_payment texts cmd given van w).1

  abbrev pub run : List (Call × List Bool) → Tables → Tables
  run [] t = t
  run ((call, faults) ∷ calls) t = run calls (run_call call (request_on t faults)).committed

  module _ (P : Tables → Type 0) (kept : IsKept texts P) where
    run_call-Keeps :
        (call : Call) (t : Tables) (faults : List Bool)
        → P t
        → P (run_call call (request_on t faults)).committed
    run_call-Keeps (submit cmd actor_id given) t faults h =
        ((submit_invoice-Preserves texts P kept cmd actor_id given).keeps (request_on t faults) refl
          h).1
    run_call-Keeps (approve cmd actor_id given) t faults h =
        ((approve_invoice-Preserves texts P kept cmd actor_id given).keeps (request_on t faults)
          refl h).1
    run_call-Keeps (request cmd actor_id given) t faults h =
        ((request_financing-Preserves texts P kept cmd actor_id given).keeps (request_on t faults)
          refl h).1
    run_call-Keeps (assess cmd actor_id given) t faults h =
        ((assess_and_record-Preserves P kept.assessment_kept cmd actor_id given).keeps
          (request_on t faults) refl h).1
    run_call-Keeps (open_account cmd number given) t faults h =
        ((create_van-Preserves texts P kept cmd number given).keeps (request_on t faults) refl h).1
    run_call-Keeps (pay cmd given) t faults h =
        ((record_payment-Preserves texts P kept cmd given).keeps (request_on t faults) refl h).1
    run_call-Keeps (pay_later cmd given van) t faults h =
        ((apply_payment-Preserves texts P kept cmd given van).keeps (request_on t faults) refl h).1

    -- What every transaction keeps, any calls keep.
    pub run-Keeps : (calls : List (Call × List Bool)) (t : Tables) → P t → P (run calls t)
    run-Keeps [] t h = h
    run-Keeps ((call, faults) ∷ calls) t h =
        run-Keeps calls (run_call call (request_on t faults)).committed
          (run_call-Keeps call t faults h)

  pub transactions-Keep : IsKept texts IsConsistent
  transactions-Keep = record {
    drafted = λ cmd given t t' h d. Drafted-IsConsistent cmd 0 given t h t' d;
    submitted = λ cmd actor_id given t t' h d. Submitted-IsConsistent cmd actor_id given t h t' d;
    approval_kept = approval_stmt-Keeps;
    financing_kept =
        λ actor_id given invoice t h. move_stmt-Keeps invoice.id _ _ actor_id given t (λ s. refl) h;
    assessment_kept = assessment_stmt-Keeps;
    payment_kept = payment_stmt-IsConsistent texts;
    opening_kept = opening_stmt-IsConsistent texts;
  }

  -- From consistent tables, any calls of the services, whatever fails in them and however old the
  -- account is that a payment works with, lead to consistent tables: every account has received the
  -- sum of its credits and is settled exactly where that is what was expected, no key is used twice,
  -- and every invoice's status is what the audit trail replays to.
  pub run-IsConsistent :
      (calls : List (Call × List Bool)) (t : Tables) → IsConsistent t → IsConsistent (run calls t)
  run-IsConsistent = run-Keeps IsConsistent transactions-Keep

-- The tables before the first invoice.
abbrev pub initial : List Organisation → List OrganisationCredential → Tables
initial organisations credentials = record {
  organisations = organisations;
  organisation_credentials = credentials;
  invoices = [];
  virtual_accounts = [];
  ledger_entries = [];
  invoice_events = [];
}

pub initial-IsConsistent :
    (organisations : List Organisation) (credentials : List OrganisationCredential)
    → IsConsistent (initial organisations credentials)
initial-IsConsistent organisations credentials = record {
  balanced = record {
    keys_distinct = tt;
    ids_distinct = tt;
    entries_known = tt;
    received_is_credits = tt;
    statuses_right = tt;
  };
  replayed = record { events_known = tt; status_is_replay = tt };
}

-- From consistent tables, no call makes an invoice FUNDED, so the state machine allows no step to
-- REPAID from any status that an invoice has.
pub run-never_repayable :
    (texts : Texts) (calls : List (Call × List Bool)) (t : Tables)
    → IsConsistent t
    → All (λ i. is_valid_transition i.status repaid ≡ false) (run texts calls t).invoices
unfolding is_valid_transition valid_transitions
run-never_repayable texts calls t h =
    let t' = run texts calls t in
    All-map _ _ t'.invoices
      (λ i p.
        unfunded i.status
          (λ q. replay-ne-funded i.id t'.invoice_events draft (λ d. cc) (sym p ∙ q)))
      (run-IsConsistent texts calls t h).replayed.status_is_replay
  where
    unfunded : (s : InvoiceStatus) → s ≢ funded → is_valid_transition s repaid ≡ false
    unfunded s h = ground arith
