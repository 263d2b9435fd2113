-- ===== src/Risk/Records.antt =====
-- What the risk service checks and writes, whatever fails on the way.
use vanguard_settlement_engi.Base.{ℕ, ⊤, not, some, none, find?, ◌≡◌, refl, ap, ◌∙◌, arith}
use vanguard_settlement_engi.Domain.{Invoice, financing_requested, cancelled}
use vanguard_settlement_engi.Errors.{plain, invoice_missing, invoice_not_eligible}
use vanguard_settlement_engi.Database.{Tables, Generated}
use vanguard_settlement_engi.Database.Session.{World, connect, pure}
use vanguard_settlement_engi.Database.Hoare.{Holds, then_stmt-Holds, Holds-weaken, return_stmt}
use vanguard_settlement_engi.Database.Quiet.{connect-IsQuiet, pure-IsQuiet}
use vanguard_settlement_engi.Database.Guards.{
  Writes, Wrote, quiet-Ensures, or_throw-Ensures, read-Ensures, throw_if-Ensures, >>=-Writes,
  transaction-Writes,
}
use vanguard_settlement_engi.Repositories.Events
use vanguard_settlement_engi.Repositories.Events.{CreateEventInput, new_event}
use vanguard_settlement_engi.Repositories.Invoices.{find_by_id, has_id, set_status, update_status}
use vanguard_settlement_engi.Repositories.Effects.{
  Appended, appended, append-Holds, Moved, update_status-Holds,
}
use vanguard_settlement_engi.Repositories.Reads.{invoice_by_id-Reads}
use vanguard_settlement_engi.Invoice.StateMachine.{same_status}
use vanguard_settlement_engi.Invoice.Statements.{assessment_stmt, assessment-Simulates, cancel_stmt}
use vanguard_settlement_engi.Risk.Types.{
  AssessInvoiceRiskCommand, RiskAssessmentResult, RiskDecision, approve, reject, manual_review,
}
use vanguard_settlement_engi.Risk.Engine.{assess_invoice_risk}
use vanguard_settlement_engi.Risk.Service.{assess_and_record, assessment, assessment_event}

abbrev pub decided_tables : RiskDecision → ℕ → ℕ → Tables → Tables
decided_tables reject id now t = set_status id cancelled now t
decided_tables approve id now t = t
decided_tables manual_review id now t = t

-- The decision's event, and the invoice CANCELLED where it is a rejection.
abbrev pub assessed_tables :
    AssessInvoiceRiskCommand → ℕ → Generated → RiskDecision → Tables → Tables
assessed_tables cmd actor_id given decision t =
    let input : CreateEventInput = record {
      invoice_id = cmd.invoice_id;
      event_type = assessment_event decision;
      actor_id = some actor_id;
    } in
    decided_tables decision cmd.invoice_id given.now (appended (new_event input given) t)

cancel_stmt-Holds :
    (decision : RiskDecision) (id now : ℕ) (t : Tables)
    → Holds {A = ⊤} (λ _ t'. t' ≡ decided_tables decision id now t) (cancel_stmt decision id now t)
cancel_stmt-Holds approve id now t = refl
cancel_stmt-Holds manual_review id now t = refl
cancel_stmt-Holds reject id now t =
    then_stmt-Holds (Moved id cancelled now t) (λ _ t'. t' ≡ set_status id cancelled now t)
      (update_status id cancelled now) (λ _. return_stmt tt) t
      (update_status-Holds id cancelled now t) (λ _ _ (same, _). same)

module _ (cmd : AssessInvoiceRiskCommand) (actor_id : ℕ) (given : Generated) where
  pub assessment_stmt-Holds :
      (result : RiskAssessmentResult) (t : Tables)
      → Holds {A = RiskAssessmentResult}
          (λ _ t'. t' ≡ assessed_tables cmd actor_id given result.decision t)
          (assessment_stmt cmd actor_id given result t)
  assessment_stmt-Holds result t =
      let input : CreateEventInput = record {
        invoice_id = cmd.invoice_id;
        event_type = assessment_event result.decision;
        actor_id = some actor_id;
      } in
      let Q : RiskAssessmentResult → Tables → Type 0 =
        λ _ t'. t' ≡ assessed_tables cmd actor_id given result.decision t in
      then_stmt-Holds (Appended input given t) Q (Events.append input given) _ t
        (append-Holds input given t)
        λ e t₁ (same, _).
          then_stmt-Holds (λ _ t'. t' ≡ decided_tables result.decision cmd.invoice_id given.now t₁)
            Q (cancel_stmt result.decision cmd.invoice_id given.now) (λ _. return_stmt result) t₁
            (cancel_stmt-Holds result.decision cmd.invoice_id given.now t₁)
            (λ _ t₂ k. k ∙ ap (decided_tables result.decision cmd.invoice_id given.now) same)

  -- What an assessment has checked and written.
  abbrev pub Assesses : Tables → Tables → Type 0
  Assesses t t' =
      (i : Invoice) × (find? (has_id cmd.invoice_id) t.invoices ≡ some i)
      × (i.status ≡ financing_requested)
      × (t' ≡ assessed_tables cmd actor_id given (assess_invoice_risk given.now cmd).decision t)

  assess_and_record-Writes : Writes (λ _. ⊤) (assess_and_record cmd actor_id given) Assesses
  unfolding assess_and_record find_by_id
  assess_and_record-Writes =
      >>=-Writes _ _ _ _ _ (read-Ensures _ _ (invoice_by_id-Reads cmd.invoice_id)) λ found.
        >>=-Writes _ _ _ _ _ (or_throw-Ensures _ found (plain (invoice_missing cmd.invoice_id)))
          λ invoice.
            >>=-Writes _ _ _ _ _
              (throw_if-Ensures _ (not (same_status invoice.status financing_requested))
                (invoice_not_eligible cmd.invoice_id invoice.status))
              λ _.
                let result = assess_invoice_risk given.now cmd in
                >>=-Writes _ _ _ _ _ (quiet-Ensures _ connect connect-IsQuiet) λ _.
                  transaction-Writes _ (assessment cmd actor_id given result)
                    (assessment_stmt cmd actor_id given result) pure (λ e. e) _
                    (assessment-Simulates cmd actor_id given result) pure-IsQuiet
                    (λ t (((_, row), is), status).
                      Holds-weaken _ _ (assessment_stmt cmd actor_id given result t)
                        (assessment_stmt-Holds result t)
                        (λ _ t' same. (invoice, ground arith, ground arith, same)))

-- Whatever fails, an assessment that returns was of a FINANCING_REQUESTED invoice, and it has written
-- the event of the engine's decision, with the status CANCELLED where that is a rejection, and nothing
-- else. One that throws has written all of that or nothing.
pub assess_and_record-Assesses :
    (cmd : AssessInvoiceRiskCommand) (actor_id : ℕ) (given : Generated) (w : World)
    → w.tx ≡ none
    → Wrote (Assesses cmd actor_id given) w (assess_and_record cmd actor_id given w)
assess_and_record-Assesses cmd actor_id given w closed =
    (assess_and_record-Writes cmd actor_id given).wrote w closed tt
