-- ===== src/Repositories/Vans.antt =====
-- core/repositories/van.repository.ts, with the constraints of `virtual_accounts` and
-- `ledger_entries` in infra/db/migrations/V001__initial_schema.sql.
use vanguard_settlement_engi.Base.{
  ℕ, ◌+◌, String, Bool, not, ◌&&◌, ◌||◌, Option, List, [], ◌∷◌, ◌++◌, ◌==◌, str_eq, find?, any,
  select, update_where, ltb, if◌then◌else◌,
}
use vanguard_settlement_engi.Domain.{VirtualAccount, LedgerEntry, EntryType, active, settled}
use vanguard_settlement_engi.Errors.{
  ok, err, database, unique_violation, foreign_key_violation, check_violation, out_of_range,
}
use vanguard_settlement_engi.Database.{Tables, Stmt, Generated}
use vanguard_settlement_engi.Repositories.Invoices.{invoice_exists, returned}

pub record CreateVanInput : Type 0 where
  pub invoice_id : ℕ
  pub account_number : String
  pub ifsc_code : String
  pub expected_amount_cents : ℕ
  pub expires_at : ℕ

pub record CreateLedgerEntryInput : Type 0 where
  pub virtual_account_id : ℕ
  pub entry_type : EntryType
  pub amount_cents : ℕ
  pub description : String
  pub idempotency_key : String

-- The largest BIGINT.
abbrev pub bigint_max : ℕ
bigint_max = 9223372036854775807

abbrev pub has_id : ℕ → VirtualAccount → Bool
has_id id v = v.id == id

abbrev pub new_van : CreateVanInput → Generated → VirtualAccount
new_van input given = record {
  id = given.row_id;
  invoice_id = input.invoice_id;
  account_number = input.account_number;
  ifsc_code = input.ifsc_code;
  expected_amount_cents = input.expected_amount_cents;
  received_amount_cents = 0;
  status = active;
  expires_at = input.expires_at;
  created_at = given.now;
}

-- One of the three UNIQUE columns of a row is taken.
abbrev pub clashes : CreateVanInput → Generated → VirtualAccount → Bool
clashes input given v =
    v.id == given.row_id
    || v.invoice_id == input.invoice_id
    || str_eq v.account_number input.account_number

unfoldable pub create : CreateVanInput → Generated → Stmt VirtualAccount
create input given t =
    if ltb bigint_max input.expected_amount_cents
    then err (database out_of_range)
    else if input.expected_amount_cents == 0
    then err (database check_violation)
    else if any (clashes input given) t.virtual_accounts
    then err (database unique_violation)
    else if not (invoice_exists input.invoice_id t)
    then err (database foreign_key_violation)
    else ok (
      new_van input given,
      record t { virtual_accounts = t.virtual_accounts ++ new_van input given ∷ [] },
    )

unfoldable pub find_by_invoice_id : ℕ → Stmt (Option VirtualAccount)
find_by_invoice_id id t = ok (find? (λ v. v.invoice_id == id) t.virtual_accounts, t)

unfoldable pub find_by_account_number : String → Stmt (Option VirtualAccount)
find_by_account_number number t =
    ok (find? (λ v. str_eq v.account_number number) t.virtual_accounts, t)

abbrev pub add_received : ℕ → VirtualAccount → VirtualAccount
add_received amount v = record v { received_amount_cents = v.received_amount_cents + amount }

abbrev pub credited : ℕ → ℕ → Tables → Tables
credited id amount t = record t {
  virtual_accounts = update_where (has_id id) (add_received amount) t.virtual_accounts;
}

abbrev pub overflows : ℕ → ℕ → VirtualAccount → Bool
overflows id amount v = has_id id v && ltb bigint_max (v.received_amount_cents + amount)

-- `SET received_amount_cents = received_amount_cents + $1`
unfoldable pub update_received_amount : ℕ → ℕ → Stmt VirtualAccount
update_received_amount id amount t =
    if any (overflows id amount) t.virtual_accounts
    then err (database out_of_range)
    else returned id (find? (has_id id) (credited id amount t).virtual_accounts)
        (credited id amount t)

abbrev pub mark_settled : VirtualAccount → VirtualAccount
mark_settled v = record v { status = settled }

abbrev pub closed : ℕ → Tables → Tables
closed id t = record t {
  virtual_accounts = update_where (has_id id) mark_settled t.virtual_accounts;
}

unfoldable pub settle_account : ℕ → Stmt VirtualAccount
settle_account id t = returned id (find? (has_id id) (closed id t).virtual_accounts) (closed id t)

abbrev pub new_entry : CreateLedgerEntryInput → Generated → LedgerEntry
new_entry input given = record {
  id = given.entry_id;
  virtual_account_id = input.virtual_account_id;
  entry_type = input.entry_type;
  amount_cents = input.amount_cents;
  description = input.description;
  idempotency_key = input.idempotency_key;
  created_at = given.now;
}

abbrev pub has_key : String → LedgerEntry → Bool
has_key key e = str_eq e.idempotency_key key

abbrev pub van_exists : ℕ → Tables → Bool
van_exists id t = any (has_id id) t.virtual_accounts

-- Throws a constraint error on a key that any account has used.
unfoldable pub append_ledger_entry : CreateLedgerEntryInput → Generated → Stmt LedgerEntry
append_ledger_entry input given t =
    if ltb bigint_max input.amount_cents
    then err (database out_of_range)
    else if input.amount_cents == 0
    then err (database check_violation)
    else if any (λ e. e.id == given.entry_id) t.ledger_entries
        || any (has_key input.idempotency_key) t.ledger_entries
    then err (database unique_violation)
    else if not (van_exists input.virtual_account_id t)
    then err (database foreign_key_violation)
    else ok (
      new_entry input given,
      record t { ledger_entries = t.ledger_entries ++ new_entry input given ∷ [] },
    )

abbrev pub of_account : ℕ → LedgerEntry → Bool
of_account id e = e.virtual_account_id == id

-- Rows are kept oldest first, so `ORDER BY created_at ASC` is their order.
unfoldable pub get_ledger_entries : ℕ → Stmt (List LedgerEntry)
get_ledger_entries id t = ok (select (of_account id) t.ledger_entries, t)
