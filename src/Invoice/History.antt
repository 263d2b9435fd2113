-- ===== src/Invoice/History.antt =====
-- The audit trail as the source of truth: an invoice's status is what its events replay to.
pub mod Writes
use vanguard_settlement_engi.Base.{ℕ, Bool, true, List, [], ◌∷◌, ◌==◌, ◌≡◌, All, if◌then◌else◌}
use vanguard_settlement_engi.Domain.{
  InvoiceStatus, draft, submitted, buyer_approved, financing_requested, repaid, cancelled,
  InvoiceEvent, EventType, invoice_submitted, invoice_buyer_approved, invoice_financing_requested,
  van_created, invoice_repaid, risk_assessment_approve, risk_assessment_reject,
  risk_assessment_manual_review,
}
use vanguard_settlement_engi.Database.{Tables}
use vanguard_settlement_engi.Repositories.Invoices.{invoice_exists}

-- The status behind an event of an invoice.
abbrev pub next_status : EventType → InvoiceStatus → InvoiceStatus
next_status invoice_submitted s = submitted
next_status invoice_buyer_approved s = buyer_approved
next_status invoice_financing_requested s = financing_requested
next_status van_created s = s
next_status invoice_repaid s = repaid
next_status risk_assessment_approve s = s
next_status risk_assessment_reject s = cancelled
next_status risk_assessment_manual_review s = s

-- One event, seen by the invoice `id`.
abbrev pub after_event : ℕ → InvoiceEvent → InvoiceStatus → InvoiceStatus
after_event id e s = if e.invoice_id == id then next_status e.event_type s else s

-- The events of all invoices, oldest first, as seen by the invoice `id`.
abbrev pub replay : ℕ → List InvoiceEvent → InvoiceStatus → InvoiceStatus
replay id [] s = s
replay id (e ∷ es) s = replay id es (after_event id e s)

-- Each event is of an invoice that exists, and each invoice has the status that its events give to
-- a draft.
pub record IsReplayed (t : Tables) : Type 0 where
  pub events_known : All (λ e. invoice_exists e.invoice_id t ≡ true) t.invoice_events
  pub status_is_replay : All (λ i. i.status ≡ replay i.id t.invoice_events draft) t.invoices
