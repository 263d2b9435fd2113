-- ===== src/Repositories/Effects.antt =====
-- What each write did to the tables, where it went through.
use vanguard_settlement_engi.Base.{ℕ, ◌<◌, true, false, some, [], ◌∷◌, ◌++◌, ◌≡◌, arith, any, find?}
use vanguard_settlement_engi.Domain.{
  Invoice, InvoiceEvent, InvoiceStatus, VirtualAccount, LedgerEntry,
}
use vanguard_settlement_engi.Database.{Tables, Generated}
use vanguard_settlement_engi.Database.Hoare.{Holds, to_Holds}
use vanguard_settlement_engi.Repositories.Invoices.{
  CreateInvoiceInput, new_invoice, invoice_exists, save, set_status, update_status, returned,
}
use vanguard_settlement_engi.Repositories.Invoices
use vanguard_settlement_engi.Repositories.Events.{CreateEventInput, new_event, append}
use vanguard_settlement_engi.Repositories.Vans.{
  CreateLedgerEntryInput, CreateVanInput, new_entry, new_van, has_key, has_id, van_exists, clashes,
  append_ledger_entry, update_received_amount, settle_account, create, credited, closed,
}

abbrev pub entered : LedgerEntry → Tables → Tables
entered e t = record t { ledger_entries = t.ledger_entries ++ e ∷ [] }

abbrev pub Entered : CreateLedgerEntryInput → Generated → Tables → LedgerEntry → Tables → Type 0
Entered input given t e t' =
    (t' ≡ entered (new_entry input given) t)
    × (any (has_key input.idempotency_key) t.ledger_entries ≡ false)
    × (van_exists input.virtual_account_id t ≡ true)

pub append_ledger_entry-Holds :
    (input : CreateLedgerEntryInput) (given : Generated) (t : Tables)
    → Holds (Entered input given t) (append_ledger_entry input given t)
unfolding append_ledger_entry
append_ledger_entry-Holds input given t =
    to_Holds (Entered input given t) (append_ledger_entry input given t)
      λ _ _ e. (ground arith, ground arith, ground arith)

-- The rows are `t'`, and RETURNING gives the one with the identifier.
abbrev pub Returns : ℕ → Tables → VirtualAccount → Tables → Type 0
Returns id t u t' = (t' ≡ t) × (find? (has_id id) t.virtual_accounts ≡ some u)

pub update_received_amount-Holds :
    (id amount : ℕ) (t : Tables)
    → Holds (Returns id (credited id amount t)) (update_received_amount id amount t)
unfolding update_received_amount
update_received_amount-Holds id amount t =
    to_Holds (Returns id (credited id amount t)) (update_received_amount id amount t)
      λ _ _ e. (ground arith, ground arith)

pub settle_account-Holds :
    (id : ℕ) (t : Tables) → Holds (Returns id (closed id t)) (settle_account id t)
unfolding settle_account
settle_account-Holds id t =
    to_Holds (Returns id (closed id t)) (settle_account id t) λ _ _ e. (ground arith, ground arith)

abbrev pub opened : VirtualAccount → Tables → Tables
opened v t = record t { virtual_accounts = t.virtual_accounts ++ v ∷ [] }

abbrev pub Opened : CreateVanInput → Generated → Tables → VirtualAccount → Tables → Type 0
Opened input given t v t' =
    (v ≡ new_van input given)
    × (t' ≡ opened (new_van input given) t)
    × (0 < input.expected_amount_cents)
    × (any (clashes input given) t.virtual_accounts ≡ false)
    × (invoice_exists input.invoice_id t ≡ true)

pub create-Holds :
    (input : CreateVanInput) (given : Generated) (t : Tables)
    → Holds (Opened input given t) (create input given t)
unfolding create
create-Holds input given t =
    to_Holds (Opened input given t) (create input given t)
      λ _ _ e. (ground arith, ground arith, ground arith, ground arith, ground arith)

abbrev pub appended : InvoiceEvent → Tables → Tables
appended e t = record t { invoice_events = t.invoice_events ++ e ∷ [] }

abbrev pub Appended : CreateEventInput → Generated → Tables → InvoiceEvent → Tables → Type 0
Appended input given t e t' =
    (t' ≡ appended (new_event input given) t) × (invoice_exists input.invoice_id t ≡ true)

pub append-Holds :
    (input : CreateEventInput) (given : Generated) (t : Tables)
    → Holds (Appended input given t) (append input given t)
unfolding append
append-Holds input given t =
    to_Holds (Appended input given t) (append input given t) λ _ _ e. (ground arith, ground arith)

abbrev pub Moved : ℕ → InvoiceStatus → ℕ → Tables → Invoice → Tables → Type 0
Moved id status now t i t' =
    (t' ≡ set_status id status now t) × (find? (Invoices.has_id id) t'.invoices ≡ some i)

pub update_status-Holds :
    (id : ℕ) (status : InvoiceStatus) (now : ℕ) (t : Tables)
    → Holds (Moved id status now t) (update_status id status now t)
unfolding update_status
update_status-Holds id status now t =
    to_Holds (Moved id status now t) (update_status id status now t)
      λ _ _ e. (ground arith, ground arith)

abbrev pub saved : Invoice → Tables → Tables
saved i t = record t { invoices = t.invoices ++ i ∷ [] }

abbrev pub Saved : CreateInvoiceInput → Generated → Tables → Invoice → Tables → Type 0
Saved input given t i t' =
    (i ≡ new_invoice input given)
    × (t' ≡ saved (new_invoice input given) t)
    × (invoice_exists given.row_id t ≡ false)

pub save-Holds :
    (input : CreateInvoiceInput) (given : Generated) (t : Tables)
    → Holds (Saved input given t) (save input given t)
unfolding save
save-Holds input given t =
    to_Holds (Saved input given t) (save input given t)
      λ _ _ e. (ground arith, ground arith, ground arith)
