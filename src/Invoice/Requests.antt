-- ===== src/Invoice/Requests.antt =====
-- What the requests on an invoice check and write, whatever fails on the way.
use vanguard_settlement_engi.Base.{
  ℕ, ⊤, ◌≤◌, not, ◌||◌, none, some, ◌≡◌, ap, ◌∙◌, arith, find?, ◌==◌, str_eq, ltb, js_length,
  update_where,
}
use vanguard_settlement_engi.Domain.{
  Invoice, InvoiceStatus, EventType, submitted, buyer_approved, financing_requested,
  invoice_buyer_approved, invoice_financing_requested,
}
use vanguard_settlement_engi.Errors.{
  ok, plain, invoice_not_found, unauthorised_actor, only_designated_buyer, only_invoice_supplier,
  signature_required,
}
use vanguard_settlement_engi.Database.{Tables, Generated}
use vanguard_settlement_engi.Database.Session.{World, connect, pure}
use vanguard_settlement_engi.Database.Hoare.{Holds, then_stmt-Holds, Holds-weaken, return_stmt}
use vanguard_settlement_engi.Database.Quiet.{connect-IsQuiet, pure-IsQuiet}
use vanguard_settlement_engi.Database.Guards.{
  Writes, Wrote, quiet-Ensures, or_throw-Ensures, read-Ensures, throw_if-Ensures,
  from_result-Ensures, >>=-Writes, transaction-Writes,
}
use vanguard_settlement_engi.Repositories.Events
use vanguard_settlement_engi.Repositories.Events.{CreateEventInput, new_event}
use vanguard_settlement_engi.Repositories.Invoices.{find_by_id, has_id, set_status, update_status}
use vanguard_settlement_engi.Repositories.Effects.{
  Appended, appended, append-Holds, Moved, update_status-Holds,
}
use vanguard_settlement_engi.Repositories.Reads.{invoice_by_id-Reads}
use vanguard_settlement_engi.Invoice.StateMachine.{
  assert_valid_transition, is_valid_transition, valid_transitions,
}
use vanguard_settlement_engi.Invoice.Service.{
  ApproveInvoiceCommand, RequestFinancingCommand, approve_invoice, request_financing, approval,
  financing, notify_supplier, set_signature, signed,
}
use vanguard_settlement_engi.Invoice.Statements.{
  move_stmt, approval_stmt, approval-Simulates, financing_stmt, financing-Simulates,
}
use vanguard_settlement_engi.Invoice.Notices.{notify_supplier-IsQuiet}

-- The status set, and its event appended.
abbrev pub moved_tables : ℕ → InvoiceStatus → EventType → ℕ → Generated → Tables → Tables
moved_tables id status event_type actor_id given t =
    let input : CreateEventInput = record {
      invoice_id = id;
      event_type = event_type;
      actor_id = some actor_id;
    } in
    appended (new_event input given) (set_status id status given.now t)

pub move_stmt-Holds :
    (id : ℕ) (status : InvoiceStatus) (event_type : EventType) (actor_id : ℕ) (given : Generated)
    (t : Tables)
    → Holds {A = Invoice}
        (λ _ t'. t' ≡ moved_tables id status event_type actor_id given t)
        (move_stmt id status event_type actor_id given t)
move_stmt-Holds id status event_type actor_id given t =
    let input : CreateEventInput = record {
      invoice_id = id;
      event_type = event_type;
      actor_id = some actor_id;
    } in
    let Q : Invoice → Tables → Type 0 =
      λ _ t'. t' ≡ moved_tables id status event_type actor_id given t in
    then_stmt-Holds (Moved id status given.now t) Q (update_status id status given.now) _ t
      (update_status-Holds id status given.now t)
      λ i t₁ (same₁, _).
        then_stmt-Holds (Appended input given t₁) Q (Events.append input given) (λ _. return_stmt i)
          t₁ (append-Holds input given t₁)
          λ e t₂ (same₂, _). same₂ ∙ ap (appended (new_event input given)) same₁

module _ (s : InvoiceStatus) where
  to_approved : assert_valid_transition s buyer_approved ≡ ok tt → s ≡ submitted
  unfolding assert_valid_transition is_valid_transition valid_transitions
  to_approved h = ground arith

  to_requested : assert_valid_transition s financing_requested ≡ ok tt → s ≡ buyer_approved
  unfolding assert_valid_transition is_valid_transition valid_transitions
  to_requested h = ground arith

-- What an approval has checked and written.
abbrev pub Approves : ApproveInvoiceCommand → ℕ → Generated → Tables → Tables → Type 0
Approves cmd actor_id given t t' =
    (i : Invoice) × (find? (has_id cmd.invoice_id) t.invoices ≡ some i)
    × (i.buyer_id ≡ cmd.buyer_id)
    × (i.status ≡ submitted)
    × (10 ≤ js_length cmd.buyer_signature)
    × (t'
        ≡ moved_tables i.id buyer_approved invoice_buyer_approved actor_id given (record t {
          invoices = update_where (has_id i.id) (signed cmd.buyer_signature given.now) t.invoices;
        }))

approve_invoice-Writes :
    (cmd : ApproveInvoiceCommand) (actor_id : ℕ) (given : Generated)
    → Writes (λ _. ⊤) (approve_invoice cmd actor_id given) (Approves cmd actor_id given)
unfolding approve_invoice find_by_id set_signature
approve_invoice-Writes cmd actor_id given =
    >>=-Writes _ _ _ _ _ (read-Ensures _ _ (invoice_by_id-Reads cmd.invoice_id)) λ found.
      >>=-Writes _ _ _ _ _ (or_throw-Ensures _ found (invoice_not_found cmd.invoice_id)) λ invoice.
        >>=-Writes _ _ _ _ _
          (throw_if-Ensures _ (not (invoice.buyer_id == cmd.buyer_id))
            (unauthorised_actor only_designated_buyer))
          λ _.
            >>=-Writes _ _ _ _ _
              (from_result-Ensures _ (assert_valid_transition invoice.status buyer_approved))
              λ _.
                >>=-Writes _ _ _ _ _
                  (throw_if-Ensures _
                    (str_eq cmd.buyer_signature "" || ltb (js_length cmd.buyer_signature) 10)
                    (plain signature_required))
                  λ _. >>=-Writes _ _ _ _ _ (quiet-Ensures _ connect connect-IsQuiet) λ _.
                    transaction-Writes _ (approval cmd actor_id given invoice)
                      (approval_stmt cmd actor_id given invoice) (notify_supplier invoice) (λ e. e)
                      _ (approval-Simulates cmd actor_id given invoice)
                      (notify_supplier-IsQuiet invoice)
                      (λ t (((((_, row), is), buyer), status), signature).
                        Holds-weaken _ _ (approval_stmt cmd actor_id given invoice t)
                          (move_stmt-Holds invoice.id buyer_approved invoice_buyer_approved actor_id
                            given _)
                          (λ _ t' same. (
                            invoice,
                            ground arith,
                            ground arith,
                            to_approved invoice.status status,
                            ground arith,
                            same,
                          )))

-- Whatever fails, an approval that returns was by the invoice's buyer, of a SUBMITTED invoice and with
-- a signature of ten characters or more, and it has written the signature, the status BUYER_APPROVED
-- and the event, and nothing else. One that throws has written all of that or nothing.
pub approve_invoice-Approves :
    (cmd : ApproveInvoiceCommand) (actor_id : ℕ) (given : Generated) (w : World)
    → w.tx ≡ none
    → Wrote (Approves cmd actor_id given) w (approve_invoice cmd actor_id given w)
approve_invoice-Approves cmd actor_id given w closed =
    (approve_invoice-Writes cmd actor_id given).wrote w closed tt

-- What a request for financing has checked and written.
abbrev pub Requests : RequestFinancingCommand → ℕ → Generated → Tables → Tables → Type 0
Requests cmd actor_id given t t' =
    (i : Invoice) × (find? (has_id cmd.invoice_id) t.invoices ≡ some i)
    × (i.supplier_id ≡ cmd.supplier_id)
    × (i.status ≡ buyer_approved)
    × (t' ≡ moved_tables i.id financing_requested invoice_financing_requested actor_id given t)

request_financing-Writes :
    (cmd : RequestFinancingCommand) (actor_id : ℕ) (given : Generated)
    → Writes (λ _. ⊤) (request_financing cmd actor_id given) (Requests cmd actor_id given)
unfolding request_financing find_by_id
request_financing-Writes cmd actor_id given =
    >>=-Writes _ _ _ _ _ (read-Ensures _ _ (invoice_by_id-Reads cmd.invoice_id)) λ found.
      >>=-Writes _ _ _ _ _ (or_throw-Ensures _ found (invoice_not_found cmd.invoice_id)) λ invoice.
        >>=-Writes _ _ _ _ _
          (throw_if-Ensures _ (not (invoice.supplier_id == cmd.supplier_id))
            (unauthorised_actor only_invoice_supplier))
          λ _.
            >>=-Writes _ _ _ _ _
              (from_result-Ensures _ (assert_valid_transition invoice.status financing_requested))
              λ _. >>=-Writes _ _ _ _ _ (quiet-Ensures _ connect connect-IsQuiet) λ _.
                transaction-Writes _ (financing cmd actor_id given invoice)
                  (financing_stmt actor_id given invoice) pure (λ e. e) _
                  (financing-Simulates cmd actor_id given invoice) pure-IsQuiet
                  (λ t ((((_, row), is), supplier), status).
                    Holds-weaken _ _ (financing_stmt actor_id given invoice t)
                      (move_stmt-Holds invoice.id financing_requested invoice_financing_requested
                        actor_id given t)
                      (λ _ t' same. (
                        invoice,
                        ground arith,
                        ground arith,
                        to_requested invoice.status status,
                        same,
                      )))

-- Whatever fails, a request for financing that returns was by the invoice's supplier and of a
-- BUYER_APPROVED invoice, and it has written the status FINANCING_REQUESTED and the event, and nothing
-- else. One that throws has written both or nothing.
pub request_financing-Requests :
    (cmd : RequestFinancingCommand) (actor_id : ℕ) (given : Generated) (w : World)
    → w.tx ≡ none
    → Wrote (Requests cmd actor_id given) w (request_financing cmd actor_id given w)
request_financing-Requests cmd actor_id given w closed =
    (request_financing-Writes cmd actor_id given).wrote w closed tt
