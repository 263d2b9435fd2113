-- ===== src/Repositories/Reads.antt =====
-- The queries that only read.
use vanguard_settlement_engi.Base.{ℕ, String, refl}
use vanguard_settlement_engi.Database.Quiet.{Reads}
use vanguard_settlement_engi.Repositories.Invoices
use vanguard_settlement_engi.Repositories.Events
use vanguard_settlement_engi.Repositories.Vans
use vanguard_settlement_engi.Repositories.Organisations
use vanguard_settlement_engi.Repositories.Credentials

pub invoice_by_id-Reads : (id : ℕ) → Reads (Invoices.find_by_id id)
unfolding Invoices.find_by_id
invoice_by_id-Reads id = record { row_of = _; reads = λ t. refl }

pub invoice_by_number-Reads : (number : String) → Reads (Invoices.find_by_invoice_number number)
unfolding Invoices.find_by_invoice_number
invoice_by_number-Reads number = record { row_of = _; reads = λ t. refl }

pub van_by_invoice-Reads : (id : ℕ) → Reads (Vans.find_by_invoice_id id)
unfolding Vans.find_by_invoice_id
van_by_invoice-Reads id = record { row_of = _; reads = λ t. refl }

pub van_by_account-Reads : (number : String) → Reads (Vans.find_by_account_number number)
unfolding Vans.find_by_account_number
van_by_account-Reads number = record { row_of = _; reads = λ t. refl }

pub entries-Reads : (id : ℕ) → Reads (Vans.get_ledger_entries id)
unfolding Vans.get_ledger_entries
entries-Reads id = record { row_of = _; reads = λ t. refl }

pub events-Reads : (id : ℕ) → Reads (Events.find_by_invoice_id id)
unfolding Events.find_by_invoice_id
events-Reads id = record { row_of = _; reads = λ t. refl }

pub organisation-Reads : (id : ℕ) → Reads (Organisations.find_by_id id)
unfolding Organisations.find_by_id
organisation-Reads id = record { row_of = _; reads = λ t. refl }

pub email-Reads : (id : ℕ) → Reads (Organisations.find_credential_email id)
unfolding Organisations.find_credential_email
email-Reads id = record { row_of = _; reads = λ t. refl }

pub credential-Reads : (email : String) → Reads (Credentials.find_by_email email)
unfolding Credentials.find_by_email
credential-Reads email = record { row_of = _; reads = λ t. refl }
