-- ===== src/System/Elsewhere.antt =====
-- Properties of the books and the trail that do not look at the invoices: what the single writes keep,
-- the transactions keep.
use vanguard_settlement_engi.Base.{ℕ, String, ◌≡◌, sym, subst, List}
use vanguard_settlement_engi.Domain.{
  Invoice, InvoiceEvent, InvoiceStatus, EventType, VirtualAccount, buyer_approved,
  invoice_buyer_approved,
}
use vanguard_settlement_engi.Database.{Tables, Generated}
use vanguard_settlement_engi.Database.Hoare.{Holds, Holds-weaken}
use vanguard_settlement_engi.Repositories.Effects.{appended}
use vanguard_settlement_engi.Invoice.Service.{ApproveInvoiceCommand, set_signature}
use vanguard_settlement_engi.Invoice.Statements.{approval_stmt, assessment_stmt, move_stmt}
use vanguard_settlement_engi.Invoice.Requests.{move_stmt-Holds, moved_tables}
use vanguard_settlement_engi.Risk.Types.{
  AssessInvoiceRiskCommand, RiskAssessmentResult, RiskDecision, approve, reject, manual_review,
}
use vanguard_settlement_engi.Risk.Records.{assessed_tables, assessment_stmt-Holds, decided_tables}
use vanguard_settlement_engi.Van.Service.{Texts, RecordPaymentCommand, CreateVanCommand}
use vanguard_settlement_engi.Van.Statements.{payment_stmt, opening_stmt}
use vanguard_settlement_engi.Van.Payments.{Paid, payment_stmt-Paid}
use vanguard_settlement_engi.System.Calls.{IsKept}

pub record IsKeptByWrites (texts : Texts) (P : Tables → Type 0) : Type 0 where
  pub invoices : (is : List Invoice) (t : Tables) → P t → P (record t { invoices = is })
  pub event : (e : InvoiceEvent) (t : Tables) → P t → P (appended e t)
  pub paid :
      (cmd : RecordPaymentCommand) (given : Generated) (van : VirtualAccount) (t t' : Tables)
      → P t
      → Paid texts cmd given van t t'
      → P t'
  pub opened :
      (cmd : CreateVanCommand) (account_number : String) (given : Generated) (invoice : Invoice)
      (t : Tables)
      → P t
      → Holds {A = VirtualAccount}
          (λ _ t'. P t')
          (opening_stmt texts cmd account_number given invoice t)

module _ (texts : Texts) (P : Tables → Type 0) (k : IsKeptByWrites texts P) where
  moved :
      (id : ℕ) (status : InvoiceStatus) (event_type : EventType) (actor_id : ℕ) (given : Generated)
      (t : Tables)
      → P t
      → P (moved_tables id status event_type actor_id given t)
  moved id status event_type actor_id given t h = k.event _ _ (k.invoices _ t h)

  move_stmt-P :
      (id : ℕ) (status : InvoiceStatus) (event_type : EventType) (actor_id : ℕ) (given : Generated)
      (t : Tables)
      → P t
      → Holds {A = Invoice} (λ _ t'. P t') (move_stmt id status event_type actor_id given t)
  move_stmt-P id status event_type actor_id given t h =
      Holds-weaken (λ _ t'. t' ≡ moved_tables id status event_type actor_id given t) (λ _ t'. P t')
        (move_stmt id status event_type actor_id given t)
        (move_stmt-Holds id status event_type actor_id given t)
        (λ _ t' same. subst P (sym same) (moved id status event_type actor_id given t h))

  decided :
      (decision : RiskDecision) (id now : ℕ) (t : Tables)
      → P t
      → P (decided_tables decision id now t)
  decided reject id now t h = k.invoices _ t h
  decided approve id now t h = h
  decided manual_review id now t h = h

  approval_stmt-P :
      (cmd : ApproveInvoiceCommand) (actor_id : ℕ) (given : Generated) (invoice : Invoice)
      (t : Tables)
      → P t
      → Holds {A = Invoice} (λ _ t'. P t') (approval_stmt cmd actor_id given invoice t)
  unfolding set_signature
  approval_stmt-P cmd actor_id given invoice t h =
      move_stmt-P invoice.id buyer_approved invoice_buyer_approved actor_id given _
        (k.invoices _ t h)

  assessment_stmt-P :
      (cmd : AssessInvoiceRiskCommand) (actor_id : ℕ) (given : Generated)
      (result : RiskAssessmentResult) (t : Tables)
      → P t
      → Holds {A = RiskAssessmentResult}
          (λ _ t'. P t')
          (assessment_stmt cmd actor_id given result t)
  assessment_stmt-P cmd actor_id given result t h =
      Holds-weaken (λ _ t'. t' ≡ assessed_tables cmd actor_id given result.decision t)
        (λ _ t'. P t') (assessment_stmt cmd actor_id given result t)
        (assessment_stmt-Holds cmd actor_id given result t)
        (λ _ t' same.
          subst P (sym same) (decided result.decision cmd.invoice_id given.now _ (k.event _ t h)))

  pub by_writes-IsKept : IsKept texts P
  by_writes-IsKept = record {
    drafted = λ cmd given t t' h (_, same). subst P (sym same) (k.invoices _ t h);
    submitted =
        λ cmd actor_id given t t' h (_, same). subst P (sym same) (k.event _ _ (k.invoices _ t h));
    approval_kept = approval_stmt-P;
    financing_kept = λ actor_id given invoice t h. move_stmt-P invoice.id _ _ actor_id given t h;
    assessment_kept = assessment_stmt-P;
    payment_kept = λ cmd given van t h.
        Holds-weaken (λ _ t'. Paid texts cmd given van t t') (λ _ t'. P t')
          (payment_stmt texts cmd given van t) (payment_stmt-Paid texts cmd given van t)
          (λ _ t' p. k.paid cmd given van t t' h p);
    opening_kept = k.opened;
  }
