-- ===== src/Database.antt =====
-- The tables of infra/db/migrations and how the program reaches them: `pool.query`, and
-- `client.query` between BEGIN and COMMIT or ROLLBACK. PostgreSQL itself is not part of the
-- repository; a statement's meaning is read off its text and the constraints of the migrations.
pub mod Session
pub mod Atomic
pub mod Transaction
pub mod Calm
pub mod Jobs
pub mod Hoare
pub mod Quiet
pub mod Preserves
pub mod Guards
use vanguard_settlement_engi.Base.{ℕ, String, Bool, List, Option}
use vanguard_settlement_engi.Domain.{
  Organisation, OrgRole, Invoice, VirtualAccount, LedgerEntry, InvoiceEvent,
}
use vanguard_settlement_engi.Errors.{Result, ok, err}

-- A row of `organisation_credentials`.
pub record OrganisationCredential : Type 0 where
  pub id : ℕ
  pub org_id : ℕ
  pub email : String
  pub password_hash : String
  pub role : OrgRole
  pub is_active : Bool
  pub last_login_at : Option ℕ

-- The rows, oldest first.
pub record Tables : Type 0 where
  pub organisations : List Organisation
  pub organisation_credentials : List OrganisationCredential
  pub invoices : List Invoice
  pub virtual_accounts : List VirtualAccount
  pub ledger_entries : List LedgerEntry
  pub invoice_events : List InvoiceEvent

-- What a statement does to the tables: rows and new tables, or a violated constraint.
abbrev pub Stmt : Type 0 → Type 0
Stmt A = Tables → Result (A × Tables)

-- What `gen_random_uuid()`, `now()` and `new Date()` give to one call of a service.
pub record Generated : Type 0 where
  pub row_id : ℕ
  pub entry_id : ℕ
  pub event_id : ℕ
  pub now : ℕ
