-- ===== src/Risk/Service.antt =====
-- core/services/risk/risk.service.ts: the assessment is recorded as an event, and a rejection cancels
-- the invoice.
use vanguard_settlement_engi.Base.{ℕ, ⊤, not, some}
use vanguard_settlement_engi.Domain.{
  EventType, cancelled, financing_requested, risk_assessment_approve, risk_assessment_reject,
  risk_assessment_manual_review,
}
use vanguard_settlement_engi.Errors.{plain, invoice_missing, invoice_not_eligible}
use vanguard_settlement_engi.Database.{Generated}
use vanguard_settlement_engi.Database.Session.{
  M, ◌>>=◌, ◌>>◌, pure, throw_if, or_throw, pool_query, client_query, connect,
}
use vanguard_settlement_engi.Database.Transaction.{transaction}
use vanguard_settlement_engi.Invoice.StateMachine.{same_status}
use vanguard_settlement_engi.Repositories.Invoices.{find_by_id, update_status}
use vanguard_settlement_engi.Repositories.Events
use vanguard_settlement_engi.Risk.Types.{
  AssessInvoiceRiskCommand, RiskAssessmentResult, RiskDecision, approve, reject, manual_review,
}
use vanguard_settlement_engi.Risk.Engine.{assess_invoice_risk}

-- `risk.assessment.${decision.toLowerCase()}`
abbrev pub assessment_event : RiskDecision → EventType
assessment_event approve = risk_assessment_approve
assessment_event reject = risk_assessment_reject
assessment_event manual_review = risk_assessment_manual_review

-- `if (result.decision === 'REJECT')`
abbrev pub cancel_if : RiskDecision → ℕ → ℕ → M ⊤
cancel_if reject invoice_id now =
    client_query (update_status invoice_id cancelled now) >>= λ _. pure tt
cancel_if _ invoice_id now = pure tt

-- Between BEGIN and COMMIT.
unfoldable pub assessment :
    AssessInvoiceRiskCommand → ℕ → Generated → RiskAssessmentResult → M RiskAssessmentResult
assessment cmd actor_id given result = do
  event ← client_query (
      Events.append
        (record {
          invoice_id = cmd.invoice_id;
          event_type = assessment_event result.decision;
          actor_id = some actor_id;
        })
        given)
  cancel_if result.decision cmd.invoice_id given.now
  pure result

unfoldable pub assess_and_record : AssessInvoiceRiskCommand → ℕ → Generated → M RiskAssessmentResult
assess_and_record cmd actor_id given = do
  found ← pool_query (find_by_id cmd.invoice_id)
  invoice ← or_throw found (plain (invoice_missing cmd.invoice_id))
  throw_if (not (same_status invoice.status financing_requested))
      (invoice_not_eligible cmd.invoice_id invoice.status)
  let result = assess_invoice_risk given.now cmd
  connect
  transaction (assessment cmd actor_id given result) pure (λ e. e)
