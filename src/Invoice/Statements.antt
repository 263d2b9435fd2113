-- ===== src/Invoice/Statements.antt =====
-- The statements of the transactions of `InvoiceService` and `RiskService`, one after the other.
use vanguard_settlement_engi.Base.{ℕ, ⊤, some}
use vanguard_settlement_engi.Domain.{
  Invoice, InvoiceStatus, EventType, buyer_approved, financing_requested, cancelled,
  invoice_buyer_approved, invoice_financing_requested,
}
use vanguard_settlement_engi.Database.{Stmt, Generated}
use vanguard_settlement_engi.Database.Session.{pure}
use vanguard_settlement_engi.Database.Atomic.{
  then_stmt, Simulates, >>=-Simulates, client_query-Simulates, pure-Simulates,
}
use vanguard_settlement_engi.Database.Hoare.{return_stmt, last-Simulates}
use vanguard_settlement_engi.Repositories.Invoices.{update_status}
use vanguard_settlement_engi.Repositories.Events
use vanguard_settlement_engi.Invoice.Service.{
  ApproveInvoiceCommand, RequestFinancingCommand, set_signature, approval, financing,
}
use vanguard_settlement_engi.Risk.Types.{
  AssessInvoiceRiskCommand, RiskAssessmentResult, RiskDecision, approve, reject, manual_review,
}
use vanguard_settlement_engi.Risk.Service.{assessment, assessment_event, cancel_if}

-- A status with its event.
abbrev pub move_stmt : ℕ → InvoiceStatus → EventType → ℕ → Generated → Stmt Invoice
move_stmt id status event_type actor_id given =
    then_stmt (update_status id status given.now) λ moved.
      then_stmt
        (Events.append
          (record { invoice_id = id; event_type = event_type; actor_id = some actor_id }) given)
        λ _. return_stmt moved

abbrev pub approval_stmt : ApproveInvoiceCommand → ℕ → Generated → Invoice → Stmt Invoice
approval_stmt cmd actor_id given invoice =
    then_stmt (set_signature invoice.id cmd.buyer_signature given.now)
      λ _. move_stmt invoice.id buyer_approved invoice_buyer_approved actor_id given

pub approval-Simulates :
    (cmd : ApproveInvoiceCommand) (actor_id : ℕ) (given : Generated) (invoice : Invoice)
    → Simulates (approval cmd actor_id given invoice) (approval_stmt cmd actor_id given invoice)
unfolding approval
approval-Simulates cmd actor_id given invoice =
    >>=-Simulates _ _ _ _ (client_query-Simulates _)
      λ _. >>=-Simulates _ _ _ _ (client_query-Simulates _) λ moved. last-Simulates _ moved

abbrev pub financing_stmt : ℕ → Generated → Invoice → Stmt Invoice
financing_stmt actor_id given invoice =
    move_stmt invoice.id financing_requested invoice_financing_requested actor_id given

pub financing-Simulates :
    (cmd : RequestFinancingCommand) (actor_id : ℕ) (given : Generated) (invoice : Invoice)
    → Simulates (financing cmd actor_id given invoice) (financing_stmt actor_id given invoice)
unfolding financing
financing-Simulates cmd actor_id given invoice =
    >>=-Simulates _ _ _ _ (client_query-Simulates _) λ moved. last-Simulates _ moved

abbrev pub cancel_stmt : RiskDecision → ℕ → ℕ → Stmt ⊤
cancel_stmt reject id now = then_stmt (update_status id cancelled now) λ _. return_stmt tt
cancel_stmt _ id now = return_stmt tt

cancel_if-Simulates :
    (decision : RiskDecision) (id now : ℕ)
    → Simulates (cancel_if decision id now) (cancel_stmt decision id now)
cancel_if-Simulates reject id now = last-Simulates _ tt
cancel_if-Simulates approve id now = pure-Simulates tt
cancel_if-Simulates manual_review id now = pure-Simulates tt

abbrev pub assessment_stmt :
    AssessInvoiceRiskCommand → ℕ → Generated → RiskAssessmentResult → Stmt RiskAssessmentResult
assessment_stmt cmd actor_id given result =
    then_stmt
      (Events.append
        (record {
          invoice_id = cmd.invoice_id;
          event_type = assessment_event result.decision;
          actor_id = some actor_id;
        })
        given)
      λ _. then_stmt (cancel_stmt result.decision cmd.invoice_id given.now) λ _. return_stmt result

pub assessment-Simulates :
    (cmd : AssessInvoiceRiskCommand) (actor_id : ℕ) (given : Generated)
    (result : RiskAssessmentResult)
    → Simulates (assessment cmd actor_id given result) (assessment_stmt cmd actor_id given result)
unfolding assessment
assessment-Simulates cmd actor_id given result =
    >>=-Simulates _ _ _ _ (client_query-Simulates _) λ _.
      >>=-Simulates (cancel_if result.decision cmd.invoice_id given.now)
        (cancel_stmt result.decision cmd.invoice_id given.now) (λ _. pure result)
        (λ _. return_stmt result) (cancel_if-Simulates result.decision cmd.invoice_id given.now)
        (λ _. pure-Simulates result)
