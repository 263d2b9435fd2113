-- ===== src/Repositories/Events.antt =====
-- core/repositories/event.repository.ts: an append-only table.
use vanguard_settlement_engi.Base.{
  ℕ, Bool, not, Option, List, [], ◌∷◌, ◌++◌, ◌==◌, any, select, if◌then◌else◌,
}
use vanguard_settlement_engi.Domain.{InvoiceEvent, EventType}
use vanguard_settlement_engi.Errors.{ok, err, database, unique_violation, foreign_key_violation}
use vanguard_settlement_engi.Database.{Stmt, Generated}
use vanguard_settlement_engi.Repositories.Invoices.{invoice_exists}

pub record CreateEventInput : Type 0 where
  pub invoice_id : ℕ
  pub event_type : EventType
  pub actor_id : Option ℕ

abbrev pub new_event : CreateEventInput → Generated → InvoiceEvent
new_event input given = record {
  id = given.event_id;
  invoice_id = input.invoice_id;
  event_type = input.event_type;
  actor_id = input.actor_id;
  occurred_at = given.now;
}

unfoldable pub append : CreateEventInput → Generated → Stmt InvoiceEvent
append input given t =
    if any (λ e. e.id == given.event_id) t.invoice_events
    then err (database unique_violation)
    else if not (invoice_exists input.invoice_id t)
    then err (database foreign_key_violation)
    else ok (
      new_event input given,
      record t { invoice_events = t.invoice_events ++ new_event input given ∷ [] },
    )

abbrev pub of_invoice : ℕ → InvoiceEvent → Bool
of_invoice id e = e.invoice_id == id

-- Rows are kept oldest first, so `ORDER BY occurred_at ASC` is their order.
unfoldable pub find_by_invoice_id : ℕ → Stmt (List InvoiceEvent)
find_by_invoice_id id t = ok (select (of_invoice id) t.invoice_events, t)
