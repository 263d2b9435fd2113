-- ===== src/Invoice/Service.antt =====
-- core/services/invoice.service.ts: the four methods of `InvoiceService`, each call of a repository
-- or a queue in the order of the source.
use vanguard_settlement_engi.Base.{
  ℕ, ⊤, String, not, ◌||◌, Option, none, some, List, ◌==◌, ltb, leb, str_eq, is_some, js_length,
  update_where, if◌then◌else◌,
}
use vanguard_settlement_engi.Domain.{
  Invoice, InvoiceEvent, submitted, buyer_approved, financing_requested, draft, invoice_submitted,
  invoice_buyer_approved, invoice_financing_requested,
}
use vanguard_settlement_engi.Errors.{
  ok, plain, invoice_not_found, unauthorised_actor, only_designated_buyer, only_invoice_supplier,
  amount_must_be_positive, due_date_must_be_future, signature_required, invoice_number_exists,
}
use vanguard_settlement_engi.Database.{Stmt, Generated, OrganisationCredential}
use vanguard_settlement_engi.Database.Session.{
  M, ◌>>=◌, ◌>>◌, pure, throw_if, or_throw, from_result, pool_query, client_query, connect, enqueue,
  invoice_approved_notify,
}
use vanguard_settlement_engi.Database.Transaction.{transaction}
use vanguard_settlement_engi.Invoice.StateMachine.{assert_valid_transition}
use vanguard_settlement_engi.Repositories.Invoices.{
  has_id, find_by_id, find_by_invoice_number, save, update_status,
}
use vanguard_settlement_engi.Repositories.Events
use vanguard_settlement_engi.Repositories.Organisations

pub record SubmitInvoiceCommand : Type 0 where
  pub invoice_number : String
  pub supplier_id : ℕ
  pub buyer_id : ℕ
  pub amount_cents : ℕ
  pub currency : String
  pub due_date : ℕ

pub record ApproveInvoiceCommand : Type 0 where
  pub invoice_id : ℕ
  pub buyer_id : ℕ
  pub buyer_signature : String

pub record RequestFinancingCommand : Type 0 where
  pub invoice_id : ℕ
  pub supplier_id : ℕ

-- Between BEGIN and COMMIT. As in the source, `save` goes through the pool and not the client.
unfoldable pub submission : SubmitInvoiceCommand → ℕ → Generated → M Invoice
submission cmd actor_id given = do
  invoice ← pool_query (
      save
        (record {
          invoice_number = cmd.invoice_number;
          supplier_id = cmd.supplier_id;
          buyer_id = cmd.buyer_id;
          amount_cents = cmd.amount_cents;
          currency = cmd.currency;
          due_date = cmd.due_date;
        })
        given)
  from_result (assert_valid_transition draft submitted)
  moved ← client_query (update_status invoice.id submitted given.now)
  event ← client_query (
      Events.append
        (record {
          invoice_id = invoice.id;
          event_type = invoice_submitted;
          actor_id = some actor_id;
        })
        given)
  pure moved

unfoldable pub submit_invoice : SubmitInvoiceCommand → ℕ → Generated → M Invoice
unfolding submission
submit_invoice cmd actor_id given = do
  throw_if (cmd.amount_cents == 0) (plain amount_must_be_positive)
  throw_if (leb cmd.due_date given.now) (plain due_date_must_be_future)
  existing ← pool_query (find_by_invoice_number cmd.invoice_number)
  throw_if (is_some existing) (plain (invoice_number_exists cmd.invoice_number))
  connect
  transaction (submission cmd actor_id given) pure (λ e. e)

abbrev pub signed : String → ℕ → Invoice → Invoice
signed signature now i = record i { buyer_signature = some signature; updated_at = now }

-- `UPDATE invoices SET buyer_signature = $1`
unfoldable pub set_signature : ℕ → String → ℕ → Stmt ⊤
set_signature id signature now t =
    ok (tt, record t { invoices = update_where (has_id id) (signed signature now) t.invoices })

unfoldable pub approval : ApproveInvoiceCommand → ℕ → Generated → Invoice → M Invoice
approval cmd actor_id given invoice = do
  client_query (set_signature invoice.id cmd.buyer_signature given.now)
  approved ← client_query (update_status invoice.id buyer_approved given.now)
  event ← client_query (
      Events.append
        (record {
          invoice_id = invoice.id;
          event_type = invoice_buyer_approved;
          actor_id = some actor_id;
        })
        given)
  pure approved

abbrev pub email_or_empty : Option OrganisationCredential → String
email_or_empty none = ""
email_or_empty (some c) = c.email

-- Behind the COMMIT and inside the `try`.
unfoldable pub notify_supplier : Invoice → Invoice → M Invoice
notify_supplier invoice approved = do
  supplier ← pool_query (Organisations.find_by_id invoice.supplier_id)
  credential ← client_query (Organisations.find_credential_email invoice.supplier_id)
  let email = email_or_empty credential
  if str_eq email ""
      then pure tt
      else enqueue (invoice_approved_notify invoice.id email invoice.amount_cents)
  pure approved

unfoldable pub approve_invoice : ApproveInvoiceCommand → ℕ → Generated → M Invoice
unfolding approval notify_supplier
approve_invoice cmd actor_id given = do
  found ← pool_query (find_by_id cmd.invoice_id)
  invoice ← or_throw found (invoice_not_found cmd.invoice_id)
  throw_if (not (invoice.buyer_id == cmd.buyer_id)) (unauthorised_actor only_designated_buyer)
  from_result (assert_valid_transition invoice.status buyer_approved)
  throw_if (str_eq cmd.buyer_signature "" || ltb (js_length cmd.buyer_signature) 10)
      (plain signature_required)
  connect
  transaction (approval cmd actor_id given invoice) (notify_supplier invoice) (λ e. e)

unfoldable pub financing : RequestFinancingCommand → ℕ → Generated → Invoice → M Invoice
financing cmd actor_id given invoice = do
  updated ← client_query (update_status invoice.id financing_requested given.now)
  event ← client_query (
      Events.append
        (record {
          invoice_id = invoice.id;
          event_type = invoice_financing_requested;
          actor_id = some actor_id;
        })
        given)
  pure updated

unfoldable pub request_financing : RequestFinancingCommand → ℕ → Generated → M Invoice
unfolding financing
request_financing cmd actor_id given = do
  found ← pool_query (find_by_id cmd.invoice_id)
  invoice ← or_throw found (invoice_not_found cmd.invoice_id)
  throw_if (not (invoice.supplier_id == cmd.supplier_id)) (unauthorised_actor only_invoice_supplier)
  from_result (assert_valid_transition invoice.status financing_requested)
  connect
  transaction (financing cmd actor_id given invoice) pure (λ e. e)

pub record InvoiceWithHistory : Type 0 where
  pub invoice : Invoice
  pub events : List InvoiceEvent

-- The two reads of `Promise.all`, one after the other.
unfoldable pub get_invoice_history : ℕ → M InvoiceWithHistory
get_invoice_history invoice_id = do
  found ← pool_query (find_by_id invoice_id)
  events ← pool_query (Events.find_by_invoice_id invoice_id)
  invoice ← or_throw found (invoice_not_found invoice_id)
  pure (record { invoice = invoice; events = events })
