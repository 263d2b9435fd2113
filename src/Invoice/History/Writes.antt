-- ===== src/Invoice/History/Writes.antt =====
-- How each write of invoices and events moves the audit trail.
use vanguard_settlement_engi.Base.{
  ℕ, String, true, false, List, [], ◌∷◌, ◌++◌, ◌==◌, ◌≡◌, ◌≢◌, refl, sym, ◌∙◌, ap, arith, any, All,
  All-map, All-append, All-update_where, any-append, any-update_where, update_where, Bool-cases,
  inl, inr,
}
use vanguard_settlement_engi.Domain.{
  Invoice, InvoiceStatus, InvoiceEvent, VirtualAccount, LedgerEntry, draft, funded,
}
use vanguard_settlement_engi.Database.{Tables, Generated}
use vanguard_settlement_engi.Repositories.Invoices.{
  CreateInvoiceInput, has_id, invoice_exists, new_invoice, set_status, with_status,
}
use vanguard_settlement_engi.Repositories.Effects.{appended, saved}
use vanguard_settlement_engi.Invoice.Service.{signed}
use vanguard_settlement_engi.Invoice.History.{next_status, after_event, replay, IsReplayed}

replay-append :
    (id : ℕ) (es : List InvoiceEvent) (e : InvoiceEvent) (s : InvoiceStatus)
    → replay id (es ++ e ∷ []) s ≡ after_event id e (replay id es s)
replay-append id [] e s = refl
replay-append id (x ∷ es) e s = replay-append id es e (after_event id x s)

next_status-ne-funded :
    (e : InvoiceEvent) (s : InvoiceStatus) → s ≢ funded → next_status e.event_type s ≢ funded
next_status-ne-funded e s h = ground arith

-- No event makes an invoice FUNDED.
pub replay-ne-funded :
    (id : ℕ) (es : List InvoiceEvent) (s : InvoiceStatus) → s ≢ funded → replay id es s ≢ funded
replay-ne-funded id [] s h = h
replay-ne-funded id (e ∷ es) s h =
    replay-ne-funded id es (after_event id e s) (ground (arith, next_status-ne-funded e s h))

==_eq : (a b : ℕ) → (a == b) ≡ true → a ≡ b
==_eq a b h = ground arith

-- An invoice with no events is not seen by them.
replay-unknown :
    (id : ℕ) (es : List InvoiceEvent) (s : InvoiceStatus) (t : Tables)
    → invoice_exists id t ≡ false
    → All (λ e. invoice_exists e.invoice_id t ≡ true) es
    → replay id es s ≡ s
replay-unknown id [] s t new all = refl
replay-unknown id (e ∷ es) s t new (p, all) = elim (Bool-cases (e.invoice_id == id)) [
  | inl same ↦ absurd (cc (new, p, ap (λ k. invoice_exists k t) (==_eq _ _ same)))
  | inr other ↦ rw other (replay-unknown id es s t new all)
]

pub exists-update :
    (id k : ℕ) (f : Invoice → Invoice) (t : Tables)
    → ((i : Invoice) → (f i).id ≡ i.id)
    → any (has_id k) (update_where (has_id id) f t.invoices) ≡ invoice_exists k t
exists-update id k f t same =
    any-update_where (has_id k) (has_id id) f t.invoices (λ i. rw (same i))

-- A new invoice is a draft.
pub saved-IsReplayed :
    (input : CreateInvoiceInput) (given : Generated) (t : Tables)
    → IsReplayed t
    → invoice_exists given.row_id t ≡ false
    → IsReplayed (saved (new_invoice input given) t)
saved-IsReplayed input given t h fresh = record {
  events_known =
      All-map _ _ t.invoice_events
        (λ e p.
          ground
            (arith, any-append (has_id e.invoice_id) t.invoices (new_invoice input given ∷ [])))
        h.events_known;
  status_is_replay =
      All-append _ t.invoices (new_invoice input given) h.status_is_replay
        (sym (replay-unknown given.row_id t.invoice_events draft t fresh h.events_known));
}

module _ (t : Tables) (e : InvoiceEvent) (h : IsReplayed t)
    (known : invoice_exists e.invoice_id t ≡ true) where
  -- An event that moves no status.
  pub noted-IsReplayed :
      ((s : InvoiceStatus) → next_status e.event_type s ≡ s) → IsReplayed (appended e t)
  noted-IsReplayed still = record {
    events_known = All-append _ t.invoice_events e h.events_known known;
    status_is_replay =
        All-map _ _ t.invoices
          (λ i p. ground (
            arith,
            replay-append i.id t.invoice_events e draft,
            still (replay i.id t.invoice_events draft),
          ))
          h.status_is_replay;
  }

  -- A status that is set together with its event.
  pub moved-IsReplayed :
      (status : InvoiceStatus) (now : ℕ)
      → ((s : InvoiceStatus) → next_status e.event_type s ≡ status)
      → IsReplayed (appended e (set_status e.invoice_id status now t))
  moved-IsReplayed status now moves = record {
    events_known =
        All-append _ t.invoice_events e
          (All-map _ _ t.invoice_events
            (λ x p.
              exists-update e.invoice_id x.invoice_id (with_status status now) t (λ i. refl) ∙ p)
            h.events_known)
          (exists-update e.invoice_id e.invoice_id (with_status status now) t (λ i. refl) ∙ known);
    status_is_replay =
        All-update_where _ _ (has_id e.invoice_id) (with_status status now) t.invoices
          (λ i p hit. ground (
            arith,
            replay-append i.id t.invoice_events e draft,
            moves (replay i.id t.invoice_events draft),
          ))
          (λ i p miss. ground (arith, replay-append i.id t.invoice_events e draft))
          h.status_is_replay;
  }

-- The signature is no part of the status.
pub signed-IsReplayed :
    (id : ℕ) (signature : String) (now : ℕ) (t : Tables)
    → IsReplayed t
    → IsReplayed
        (record t { invoices = update_where (has_id id) (signed signature now) t.invoices })
signed-IsReplayed id signature now t h = record {
  events_known =
      All-map _ _ t.invoice_events
        (λ x p. exists-update id x.invoice_id (signed signature now) t (λ i. refl) ∙ p)
        h.events_known;
  status_is_replay =
      All-update_where _ _ (has_id id) (signed signature now) t.invoices (λ i p hit. p)
        (λ i p miss. p) h.status_is_replay;
}

-- The books are no part of the audit trail.
pub IsReplayed-elsewhere :
    (t : Tables) (vs : List VirtualAccount) (es : List LedgerEntry)
    → IsReplayed t
    → IsReplayed (record t { virtual_accounts = vs; ledger_entries = es })
IsReplayed-elsewhere t vs es h = record {
  events_known = h.events_known;
  status_is_replay = h.status_is_replay;
}
