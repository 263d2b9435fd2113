-- ===== src/Van/Service.antt =====
-- core/services/van.service.ts: the methods of `VanService`. `recordPayment` is split where its
-- transaction begins, as another request may run there. The text of a UUID and of a date is an
-- argument, since identifiers and dates are numbers here; so is the generated account number.
use Prim.Native.String
use vanguard_settlement_engi.Base.{
  ℕ, ◌+◌, ⊤, String, Bool, true, false, Option, none, some, List, leb, str_eq, is_some, trim, not,
  any, if◌then◌else◌,
}
use vanguard_settlement_engi.Domain.{
  Invoice, VanStatus, VirtualAccount, LedgerEntry, financing_requested, repaid, settled, expired,
  debit, credit, van_created, invoice_repaid,
}
use vanguard_settlement_engi.Errors.{
  Thrown, ok, plain, invoice_missing, van_needs_financing_requested, van_already_exists,
  van_not_found, by_account, by_invoice, duplicate_payment, van_has_expired, van_is_settled,
  database, unique_violation,
}
use vanguard_settlement_engi.Database.{Stmt, Generated}
use vanguard_settlement_engi.Database.Session.{
  M, ◌>>=◌, ◌>>◌, pure, throw_if, or_throw, pool_query, client_query, connect, commit_tx, enqueue,
  settlement_receipt_pdf,
}
use vanguard_settlement_engi.Database.Transaction.{transaction}
use vanguard_settlement_engi.Invoice.StateMachine.{same_status}
use vanguard_settlement_engi.Repositories.Invoices
use vanguard_settlement_engi.Repositories.Invoices.{set_status}
use vanguard_settlement_engi.Repositories.Events
use vanguard_settlement_engi.Repositories.Vans.{
  create, find_by_invoice_id, find_by_account_number, update_received_amount, settle_account,
  append_ledger_entry, get_ledger_entries,
}

pub record CreateVanCommand : Type 0 where
  pub invoice_id : ℕ
  pub expected_amount_cents : ℕ

pub record RecordPaymentCommand : Type 0 where
  pub account_number : String
  pub amount_cents : ℕ
  pub idempotency_key : String
  pub paid_at : ℕ

pub record VanWithLedger : Type 0 where
  pub virtual_account : VirtualAccount
  pub ledger_entries : List LedgerEntry
  pub is_fully_settled : Bool

-- How an identifier and a date are written.
pub record Texts : Type 0 where
  pub uuid_text : ℕ → String
  pub iso_text : ℕ → String

abbrev pub is_expired : VanStatus → Bool
is_expired expired = true
is_expired _ = false

abbrev pub is_settled : VanStatus → Bool
is_settled settled = true
is_settled _ = false

-- 90 days in milliseconds
abbrev pub ninety_days : ℕ
ninety_days = 7776000000

module _ (texts : Texts) where
  -- Between BEGIN and COMMIT.
  unfoldable pub opening : CreateVanCommand → String → Generated → Invoice → M VirtualAccount
  opening cmd account_number given invoice = do
    van ← client_query (
        create
          (record {
            invoice_id = cmd.invoice_id;
            account_number = account_number;
            ifsc_code = "YESB0CMSNOC";
            expected_amount_cents = cmd.expected_amount_cents;
            expires_at = given.now + ninety_days;
          })
          given)
    entry ← client_query (
        append_ledger_entry
          (record {
            virtual_account_id = van.id;
            entry_type = debit;
            amount_cents = cmd.expected_amount_cents;
            description = String.◌++◌ "Financing advance for invoice " invoice.invoice_number;
            idempotency_key = String.◌++◌ "advance-" (texts.uuid_text cmd.invoice_id);
          })
          given)
    event ← client_query (
        Events.append
          (record { invoice_id = cmd.invoice_id; event_type = van_created; actor_id = none }) given)
    pure van

  unfoldable pub create_van : CreateVanCommand → String → Generated → M VirtualAccount
  unfolding opening
  create_van cmd account_number given = do
    found ← pool_query (Invoices.find_by_id cmd.invoice_id)
    invoice ← or_throw found (plain (invoice_missing cmd.invoice_id))
    throw_if (not (same_status invoice.status financing_requested))
        (plain (van_needs_financing_requested invoice.status))
    existing ← pool_query (find_by_invoice_id cmd.invoice_id)
    throw_if (is_some existing) (van_already_exists cmd.invoice_id)
    connect
    transaction (opening cmd account_number given invoice) pure (λ e. e)

-- Layer 1: what is checked before the transaction.
unfoldable pub check_payment : RecordPaymentCommand → M VirtualAccount
check_payment cmd = do
  found ← pool_query (find_by_account_number cmd.account_number)
  van ← or_throw found (van_not_found (by_account cmd.account_number))
  throw_if (is_expired van.status) (plain (van_has_expired cmd.account_number))
  existing_entries ← pool_query (get_ledger_entries van.id)
  throw_if (any (λ e. str_eq (trim e.idempotency_key) (trim cmd.idempotency_key)) existing_entries)
      (duplicate_payment cmd.idempotency_key)
  throw_if (is_settled van.status) (plain (van_is_settled cmd.account_number))
  pure van

-- `UPDATE invoices SET status = 'REPAID'`, past the state machine.
unfoldable pub set_repaid : ℕ → ℕ → Stmt ⊤
set_repaid invoice_id now t = ok (tt, set_status invoice_id repaid now t)

-- The branch of a full settlement, up to its COMMIT.
unfoldable pub settlement : RecordPaymentCommand → Generated → VirtualAccount → M VirtualAccount
settlement cmd given van = do
  final_van ← client_query (settle_account van.id)
  client_query (set_repaid van.invoice_id given.now)
  event ← client_query (
      Events.append
        (record { invoice_id = van.invoice_id; event_type = invoice_repaid; actor_id = none })
        given)
  pure final_van

-- `if (received >= expected)`: the account after it, and whether the branch was taken.
unfoldable pub settle_when_full :
    RecordPaymentCommand → Generated → VirtualAccount → VirtualAccount → M (VirtualAccount × Bool)
settle_when_full cmd given van updated =
    if leb updated.expected_amount_cents updated.received_amount_cents
    then settlement cmd given van >>= (λ final_van. pure (final_van, true))
    else pure (updated, false)

module _ (texts : Texts) where
  -- Between BEGIN and the first COMMIT.
  unfoldable pub payment :
      RecordPaymentCommand → Generated → VirtualAccount → M (VirtualAccount × Bool)
  payment cmd given van = do
    entry ← client_query (
        append_ledger_entry
          (record {
            virtual_account_id = van.id;
            entry_type = credit;
            amount_cents = cmd.amount_cents;
            description = String.◌++◌ "Buyer payment received on " (texts.iso_text cmd.paid_at);
            idempotency_key = cmd.idempotency_key;
          })
          given)
    updated ← client_query (update_received_amount van.id cmd.amount_cents)
    settle_when_full cmd given van updated

abbrev pub enqueue_for : Option Invoice → M ⊤
enqueue_for none = pure tt
enqueue_for (some invoice) = enqueue (settlement_receipt_pdf invoice.id invoice.amount_cents)

-- Behind the COMMIT of a full settlement.
abbrev pub enqueue_receipt : Bool → ℕ → M ⊤
enqueue_receipt true invoice_id =
    pool_query (Invoices.find_by_id invoice_id) >>= λ found. enqueue_for found
enqueue_receipt false invoice_id = pure tt

-- The rest of the `try`: the receipt's job, the second COMMIT, and the entries to return.
unfoldable pub report : VirtualAccount → VirtualAccount × Bool → M VanWithLedger
report van (final_van, full) = do
  enqueue_receipt full van.invoice_id
  commit_tx
  ledger_entries ← pool_query (get_ledger_entries van.id)
  pure (record {
    virtual_account = final_van;
    ledger_entries = ledger_entries;
    is_fully_settled = is_settled final_van.status;
  })

-- Layer 2: a unique violation is a duplicate; any other error is thrown again.
abbrev pub as_duplicate : String → Thrown → Thrown
as_duplicate key (database unique_violation) = duplicate_payment key
as_duplicate key e = e

module _ (texts : Texts) where
  -- The transaction, for the account that `check_payment` returned.
  unfoldable pub apply_payment : RecordPaymentCommand → Generated → VirtualAccount → M VanWithLedger
  apply_payment cmd given van = do
    connect
    transaction (payment texts cmd given van) (report van) (as_duplicate cmd.idempotency_key)

  unfoldable pub record_payment : RecordPaymentCommand → Generated → M VanWithLedger
  record_payment cmd given = check_payment cmd >>= apply_payment cmd given

unfoldable pub get_van_details : ℕ → M VanWithLedger
get_van_details invoice_id = do
  found ← pool_query (find_by_invoice_id invoice_id)
  van ← or_throw found (van_not_found (by_invoice invoice_id))
  ledger_entries ← pool_query (get_ledger_entries van.id)
  pure (record {
    virtual_account = van;
    ledger_entries = ledger_entries;
    is_fully_settled = is_settled van.status;
  })
