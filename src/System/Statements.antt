-- ===== src/System/Statements.antt =====
-- Each transaction's statements keep the audit trail and the books.
use vanguard_settlement_engi.Base.{ℕ, true, ◌≡◌, refl, sym, subst, some, ap, ◌∙◌}
use vanguard_settlement_engi.Domain.{
  Invoice, InvoiceStatus, InvoiceEvent, EventType, buyer_approved, invoice_buyer_approved,
  cancelled,
}
use vanguard_settlement_engi.Database.{Tables, Generated}
use vanguard_settlement_engi.Database.Hoare.{Holds, then_stmt-Holds, return_stmt}
use vanguard_settlement_engi.Database.Atomic.{then_stmt}
use vanguard_settlement_engi.Repositories.Events
use vanguard_settlement_engi.Repositories.Events.{CreateEventInput, new_event}
use vanguard_settlement_engi.Repositories.Effects.{
  appended, Appended, append-Holds, Moved, update_status-Holds,
}
use vanguard_settlement_engi.Repositories.Invoices.{
  set_status, update_status, with_status, invoice_exists,
}
use vanguard_settlement_engi.Invoice.Service.{ApproveInvoiceCommand, set_signature}
use vanguard_settlement_engi.Invoice.Statements.{
  move_stmt, approval_stmt, assessment_stmt, cancel_stmt,
}
use vanguard_settlement_engi.Risk.Service.{assessment_event}
use vanguard_settlement_engi.Invoice.History.{next_status}
use vanguard_settlement_engi.Invoice.History.Writes.{
  moved-IsReplayed, noted-IsReplayed, signed-IsReplayed, exists-update,
}
use vanguard_settlement_engi.Risk.Types.{
  AssessInvoiceRiskCommand, RiskAssessmentResult, RiskDecision, approve, reject, manual_review,
}
use vanguard_settlement_engi.Van.Ledger.Writes.{IsBalanced-elsewhere}
use vanguard_settlement_engi.System.{IsConsistent}

abbrev pub Keeps : {A : Type 0} → A → Tables → Type 0
Keeps _ t = IsConsistent t

module _ (t : Tables) (e : InvoiceEvent) (h : IsConsistent t)
    (known : invoice_exists e.invoice_id t ≡ true) where
  noted-IsConsistent :
      ((s : InvoiceStatus) → next_status e.event_type s ≡ s) → IsConsistent (appended e t)
  noted-IsConsistent still = record {
    balanced = IsBalanced-elsewhere t t.invoices _ h.balanced;
    replayed = noted-IsReplayed t e h.replayed known still;
  }

  pub moved-IsConsistent :
      (status : InvoiceStatus) (now : ℕ)
      → ((s : InvoiceStatus) → next_status e.event_type s ≡ status)
      → IsConsistent (appended e (set_status e.invoice_id status now t))
  moved-IsConsistent status now moves = record {
    balanced = IsBalanced-elsewhere t _ _ h.balanced;
    replayed = moved-IsReplayed t e h.replayed known status now moves;
  }

-- Setting a status and appending its event.
pub move_stmt-Keeps :
    (id : ℕ) (status : InvoiceStatus) (event_type : EventType) (actor_id : ℕ) (given : Generated)
    (t : Tables)
    → ((s : InvoiceStatus) → next_status event_type s ≡ status)
    → IsConsistent t
    → Holds Keeps (move_stmt id status event_type actor_id given t)
move_stmt-Keeps id status event_type actor_id given t moves h =
    let input : CreateEventInput = record {
      invoice_id = id;
      event_type = event_type;
      actor_id = some actor_id;
    } in
    then_stmt-Holds (Moved id status given.now t) Keeps (update_status id status given.now) _ t
      (update_status-Holds id status given.now t)
      λ i t₁ (same₁, _).
        then_stmt-Holds (Appended input given t₁) Keeps (Events.append input given)
          (λ _. return_stmt i) t₁ (append-Holds input given t₁)
          λ e t₂ (same₂, known).
            subst IsConsistent (sym (same₂ ∙ ap (appended (new_event input given)) same₁)) (
              moved-IsConsistent t (new_event input given) h
                (sym (exists-update id id (with_status status given.now) t (λ i. refl))
                  ∙ ap (invoice_exists id) (sym same₁)
                  ∙ known)
                status given.now moves)

pub approval_stmt-Keeps :
    (cmd : ApproveInvoiceCommand) (actor_id : ℕ) (given : Generated) (invoice : Invoice)
    (t : Tables)
    → IsConsistent t
    → Holds Keeps (approval_stmt cmd actor_id given invoice t)
unfolding set_signature
approval_stmt-Keeps cmd actor_id given invoice t h =
    move_stmt-Keeps invoice.id buyer_approved invoice_buyer_approved actor_id given _ (λ s. refl)
      (record {
        balanced = IsBalanced-elsewhere t _ t.invoice_events h.balanced;
        replayed = signed-IsReplayed invoice.id cmd.buyer_signature given.now t h.replayed;
      })

-- A rejection cancels the invoice in the same transaction, and no other decision moves it.
pub assessment_stmt-Keeps :
    (cmd : AssessInvoiceRiskCommand) (actor_id : ℕ) (given : Generated)
    (result : RiskAssessmentResult) (t : Tables)
    → IsConsistent t
    → Holds Keeps (assessment_stmt cmd actor_id given result t)
assessment_stmt-Keeps cmd actor_id given result t h =
    let input : CreateEventInput = record {
      invoice_id = cmd.invoice_id;
      event_type = assessment_event result.decision;
      actor_id = some actor_id;
    } in
    then_stmt-Holds (Appended input given t) Keeps (Events.append input given) _ t
      (append-Holds input given t)
      λ e t₁ (same, known).
        subst
          (λ x. Holds Keeps (
            then_stmt (cancel_stmt result.decision cmd.invoice_id given.now)
              (λ _. return_stmt result) x))
          (sym same) (decided result.decision (new_event input given) refl refl known)
  where
    decided :
        (d : RiskDecision) (e : InvoiceEvent)
        → e.event_type ≡ assessment_event d
        → e.invoice_id ≡ cmd.invoice_id
        → invoice_exists cmd.invoice_id t ≡ true
        → Holds Keeps (
            then_stmt
              (cancel_stmt d cmd.invoice_id given.now)
              (λ _. return_stmt result)
              (appended e t))
    decided approve e kind of known =
        noted-IsConsistent t e h (ap (λ k. invoice_exists k t) of ∙ known) (λ s. rw kind)
    decided manual_review e kind of known =
        noted-IsConsistent t e h (ap (λ k. invoice_exists k t) of ∙ known) (λ s. rw kind)
    decided reject e kind of known =
        then_stmt-Holds (λ _ t'. t' ≡ set_status cmd.invoice_id cancelled given.now (appended e t))
          Keeps (cancel_stmt reject cmd.invoice_id given.now) (λ _. return_stmt result)
          (appended e t)
          (then_stmt-Holds (Moved cmd.invoice_id cancelled given.now (appended e t)) _
            (update_status cmd.invoice_id cancelled given.now) (λ _. return_stmt tt) (appended e t)
            (update_status-Holds cmd.invoice_id cancelled given.now (appended e t))
            (λ _ _ (same, _). same))
          (λ _ t' same. subst IsConsistent (sym same) (
            subst (λ k. IsConsistent (set_status k cancelled given.now (appended e t))) of
              (moved-IsConsistent t e h (ap (λ k. invoice_exists k t) of ∙ known) cancelled
                given.now (λ s. rw kind))))
