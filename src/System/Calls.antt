-- ===== src/System/Calls.antt =====
-- What the statements of the services' transactions keep, every call of a service keeps, whatever
-- fails on the way.
use vanguard_settlement_engi.Base.{
  ℕ, String, Bool, str_eq, not, ◌==◌, ◌||◌, ltb, js_length, is_some, ◌≡◌, inl, inr, none, sym,
  subst,
}
use vanguard_settlement_engi.Domain.{VirtualAccount, buyer_approved, financing_requested, Invoice}
use vanguard_settlement_engi.Errors.{
  plain, unauthorised_actor, only_designated_buyer, only_invoice_supplier, signature_required,
  invoice_not_eligible, van_needs_financing_requested, van_already_exists, Result, ok, err,
}
use vanguard_settlement_engi.Invoice.StateMachine.{assert_valid_transition, same_status}
use vanguard_settlement_engi.Risk.Engine.{assess_invoice_risk}
use vanguard_settlement_engi.Database.{Generated, Tables}
use vanguard_settlement_engi.Database.Session.{pure, pool_query, World}
use vanguard_settlement_engi.Database.Transaction.{IsQuiet}
use vanguard_settlement_engi.Database.Quiet.{
  pure-IsQuiet, throw_if-IsQuiet, or_throw-IsQuiet, from_result-IsQuiet, pool_query-IsQuiet,
  connect-IsQuiet,
}
use vanguard_settlement_engi.Database.Preserves.{Preserves, transaction-Preserves}
use vanguard_settlement_engi.Database.Preserves.Pool.{quiet->>=}
use vanguard_settlement_engi.Repositories.Invoices
use vanguard_settlement_engi.Repositories.Reads.{invoice_by_id-Reads, van_by_invoice-Reads}
use vanguard_settlement_engi.Invoice.Service.{
  ApproveInvoiceCommand, RequestFinancingCommand, approve_invoice, request_financing,
  notify_supplier, approval, financing, SubmitInvoiceCommand, submit_invoice,
}
use vanguard_settlement_engi.Invoice.Statements.{
  approval_stmt, approval-Simulates, financing_stmt, financing-Simulates, assessment_stmt,
  assessment-Simulates,
}
use vanguard_settlement_engi.Risk.Types.{AssessInvoiceRiskCommand, RiskAssessmentResult}
use vanguard_settlement_engi.Risk.Service.{assess_and_record, assessment}
use vanguard_settlement_engi.Van.Service.{
  Texts, CreateVanCommand, RecordPaymentCommand, create_van, opening, check_payment, apply_payment,
  record_payment, payment, report, as_duplicate,
}
use vanguard_settlement_engi.Van.Statements.{
  payment_stmt, payment-Simulates, opening_stmt, opening-Simulates,
}
use vanguard_settlement_engi.Van.Reports.{report-IsQuiet, check_payment-IsQuiet}
use vanguard_settlement_engi.Invoice.Notices.{notify_supplier-IsQuiet}
use vanguard_settlement_engi.Database.Hoare.{Holds}
use vanguard_settlement_engi.Invoice.Submission.{Drafted, Submitted, SubmissionEnds}
use vanguard_settlement_engi.Invoice.Submission.Outcome.{submit_invoice-SubmissionEnds}

invoice_read-IsQuiet : (id : ℕ) → IsQuiet (pool_query (Invoices.find_by_id id))
invoice_read-IsQuiet id = pool_query-IsQuiet _ (invoice_by_id-Reads id)

-- A property of the committed tables that each transaction of the services keeps, and the INSERT that
-- a submission commits on its own.
pub record IsKept (texts : Texts) (P : Tables → Type 0) : Type 0 where
  pub drafted :
      (cmd : SubmitInvoiceCommand) (given : Generated) (t t' : Tables)
      → P t
      → Drafted cmd given t t'
      → P t'
  pub submitted :
      (cmd : SubmitInvoiceCommand) (actor_id : ℕ) (given : Generated) (t t' : Tables)
      → P t
      → Submitted cmd actor_id given t t'
      → P t'
  pub approval_kept :
      (cmd : ApproveInvoiceCommand) (actor_id : ℕ) (given : Generated) (invoice : Invoice)
      (t : Tables)
      → P t
      → Holds {A = Invoice} (λ _ t'. P t') (approval_stmt cmd actor_id given invoice t)
  pub financing_kept :
      (actor_id : ℕ) (given : Generated) (invoice : Invoice) (t : Tables)
      → P t
      → Holds {A = Invoice} (λ _ t'. P t') (financing_stmt actor_id given invoice t)
  pub assessment_kept :
      (cmd : AssessInvoiceRiskCommand) (actor_id : ℕ) (given : Generated)
      (result : RiskAssessmentResult) (t : Tables)
      → P t
      → Holds {A = RiskAssessmentResult}
          (λ _ t'. P t')
          (assessment_stmt cmd actor_id given result t)
  pub payment_kept :
      (cmd : RecordPaymentCommand) (given : Generated) (van : VirtualAccount) (t : Tables)
      → P t
      → Holds {A = VirtualAccount × Bool} (λ _ t'. P t') (payment_stmt texts cmd given van t)
  pub opening_kept :
      (cmd : CreateVanCommand) (account_number : String) (given : Generated) (invoice : Invoice)
      (t : Tables)
      → P t
      → Holds {A = VirtualAccount}
          (λ _ t'. P t')
          (opening_stmt texts cmd account_number given invoice t)

module _ (P : Tables → Type 0)
    (kept : (cmd : AssessInvoiceRiskCommand) (actor_id : ℕ) (given : Generated)
        (result : RiskAssessmentResult) (t : Tables)
      → P t
      → Holds {A = RiskAssessmentResult}
          (λ _ t'. P t')
          (assessment_stmt cmd actor_id given result t)) where
  pub assess_and_record-Preserves :
      (cmd : AssessInvoiceRiskCommand) (actor_id : ℕ) (given : Generated)
      → Preserves P (assess_and_record cmd actor_id given)
  unfolding assess_and_record
  assess_and_record-Preserves cmd actor_id given =
      quiet->>= P _ _ (invoice_read-IsQuiet cmd.invoice_id) λ found.
        quiet->>= P _ _ (or_throw-IsQuiet found _) λ invoice.
          quiet->>= P _ _
            (throw_if-IsQuiet (not (same_status invoice.status financing_requested))
              (invoice_not_eligible cmd.invoice_id invoice.status))
            λ _. quiet->>= P _ _ connect-IsQuiet λ _.
              let result = assess_invoice_risk given.now cmd in
              transaction-Preserves P (assessment cmd actor_id given result)
                (assessment_stmt cmd actor_id given result) pure (λ e. e)
                (assessment-Simulates cmd actor_id given result) pure-IsQuiet
                (kept cmd actor_id given result)

module _ (texts : Texts) (P : Tables → Type 0) (kept : IsKept texts P) where
  pub approve_invoice-Preserves :
      (cmd : ApproveInvoiceCommand) (actor_id : ℕ) (given : Generated)
      → Preserves P (approve_invoice cmd actor_id given)
  unfolding approve_invoice
  approve_invoice-Preserves cmd actor_id given =
      quiet->>= P _ _ (invoice_read-IsQuiet cmd.invoice_id) λ found.
        quiet->>= P _ _ (or_throw-IsQuiet found _) λ invoice.
          quiet->>= P _ _
            (throw_if-IsQuiet (not (invoice.buyer_id == cmd.buyer_id))
              (unauthorised_actor only_designated_buyer))
            λ _.
              quiet->>= P _ _
                (from_result-IsQuiet (assert_valid_transition invoice.status buyer_approved))
                λ _.
                  quiet->>= P _ _
                    (throw_if-IsQuiet
                      (str_eq cmd.buyer_signature "" || ltb (js_length cmd.buyer_signature) 10)
                      (plain signature_required))
                    λ _. quiet->>= P _ _ connect-IsQuiet λ _.
                      transaction-Preserves P (approval cmd actor_id given invoice)
                        (approval_stmt cmd actor_id given invoice) (notify_supplier invoice)
                        (λ e. e) (approval-Simulates cmd actor_id given invoice)
                        (notify_supplier-IsQuiet invoice)
                        (kept.approval_kept cmd actor_id given invoice)

  pub request_financing-Preserves :
      (cmd : RequestFinancingCommand) (actor_id : ℕ) (given : Generated)
      → Preserves P (request_financing cmd actor_id given)
  unfolding request_financing
  request_financing-Preserves cmd actor_id given =
      quiet->>= P _ _ (invoice_read-IsQuiet cmd.invoice_id) λ found.
        quiet->>= P _ _ (or_throw-IsQuiet found _) λ invoice.
          quiet->>= P _ _
            (throw_if-IsQuiet (not (invoice.supplier_id == cmd.supplier_id))
              (unauthorised_actor only_invoice_supplier))
            λ _.
              quiet->>= P _ _
                (from_result-IsQuiet (assert_valid_transition invoice.status financing_requested))
                λ _. quiet->>= P _ _ connect-IsQuiet λ _.
                  transaction-Preserves P (financing cmd actor_id given invoice)
                    (financing_stmt actor_id given invoice) pure (λ e. e)
                    (financing-Simulates cmd actor_id given invoice) pure-IsQuiet
                    (kept.financing_kept actor_id given invoice)

  -- Also where the account is an old reading of the row.
  pub apply_payment-Preserves :
      (cmd : RecordPaymentCommand) (given : Generated) (van : VirtualAccount)
      → Preserves P (apply_payment texts cmd given van)
  unfolding apply_payment
  apply_payment-Preserves cmd given van = quiet->>= P _ _ connect-IsQuiet λ _.
      transaction-Preserves P (payment texts cmd given van) (payment_stmt texts cmd given van)
        (report van) (as_duplicate cmd.idempotency_key) (payment-Simulates texts cmd given van)
        (report-IsQuiet van) (kept.payment_kept cmd given van)

  pub record_payment-Preserves :
      (cmd : RecordPaymentCommand) (given : Generated)
      → Preserves P (record_payment texts cmd given)
  unfolding record_payment
  record_payment-Preserves cmd given =
      quiet->>= P (check_payment cmd) (apply_payment texts cmd given) (check_payment-IsQuiet cmd)
        (apply_payment-Preserves cmd given)

  pub create_van-Preserves :
      (cmd : CreateVanCommand) (account_number : String) (given : Generated)
      → Preserves P (create_van texts cmd account_number given)
  unfolding create_van
  create_van-Preserves cmd account_number given =
      quiet->>= P _ _ (invoice_read-IsQuiet cmd.invoice_id) λ found.
        quiet->>= P _ _ (or_throw-IsQuiet found _) λ invoice.
          quiet->>= P _ _
            (throw_if-IsQuiet (not (same_status invoice.status financing_requested))
              (plain (van_needs_financing_requested invoice.status)))
            λ _.
              quiet->>= P _ _ (pool_query-IsQuiet _ (van_by_invoice-Reads cmd.invoice_id))
                λ existing.
                  quiet->>= P _ _
                    (throw_if-IsQuiet (is_some existing) (van_already_exists cmd.invoice_id))
                    λ _. quiet->>= P _ _ connect-IsQuiet λ _.
                      transaction-Preserves P (opening texts cmd account_number given invoice)
                        (opening_stmt texts cmd account_number given invoice) pure (λ e. e)
                        (opening-Simulates texts cmd account_number given invoice) pure-IsQuiet
                        (kept.opening_kept cmd account_number given invoice)

  ended :
      (cmd : SubmitInvoiceCommand) (actor_id : ℕ) (given : Generated) (t : Tables)
      (x : Result Invoice × World)
      → P t
      → SubmissionEnds cmd actor_id given t x
      → (x.1.tx ≡ none) × P x.1.committed
  ended cmd actor_id given t (ok i, v) h (closed, done) =
      (closed, kept.submitted cmd actor_id given t v.committed h done)
  ended cmd actor_id given t (err e, v) h (closed, inl same) = (closed, subst P (sym same) h)
  ended cmd actor_id given t (err e, v) h (closed, inr (inl draft)) =
      (closed, kept.drafted cmd given t v.committed h draft)
  ended cmd actor_id given t (err e, v) h (closed, inr (inr done)) =
      (closed, kept.submitted cmd actor_id given t v.committed h done)

  -- Also where it leaves a draft behind.
  pub submit_invoice-Preserves :
      (cmd : SubmitInvoiceCommand) (actor_id : ℕ) (given : Generated)
      → Preserves P (submit_invoice cmd actor_id given)
  submit_invoice-Preserves cmd actor_id given = record {
    keeps = λ w closed h.
        ended cmd actor_id given w.committed (submit_invoice cmd actor_id given w) h
          (submit_invoice-SubmissionEnds cmd actor_id given w closed);
  }
