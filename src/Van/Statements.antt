-- ===== src/Van/Statements.antt =====
-- The statements of the two transactions of `VanService`, one after the other, and that the code
-- follows them.
use Prim.Native.String
use vanguard_settlement_engi.Base.{ℕ, ◌+◌, String, Bool, true, false, none, leb, if◌then◌else◌}
use vanguard_settlement_engi.Domain.{
  Invoice, VirtualAccount, debit, credit, van_created, invoice_repaid,
}
use vanguard_settlement_engi.Database.{Stmt, Generated}
use vanguard_settlement_engi.Database.Session.{◌>>=◌, pure}
use vanguard_settlement_engi.Database.Atomic.{
  then_stmt, Simulates, >>=-Simulates, client_query-Simulates, pure-Simulates,
}
use vanguard_settlement_engi.Database.Hoare.{
  return_stmt, last-Simulates, map-Simulates, if-Simulates,
}
use vanguard_settlement_engi.Repositories.Events
use vanguard_settlement_engi.Repositories.Vans.{
  CreateVanInput, CreateLedgerEntryInput, create, update_received_amount, settle_account,
  append_ledger_entry,
}
use vanguard_settlement_engi.Van.Service.{
  CreateVanCommand, RecordPaymentCommand, Texts, ninety_days, opening, payment, set_repaid,
  settlement, settle_when_full,
}

abbrev pub credit_input : Texts → RecordPaymentCommand → ℕ → CreateLedgerEntryInput
credit_input texts cmd van_id = record {
  virtual_account_id = van_id;
  entry_type = credit;
  amount_cents = cmd.amount_cents;
  description = String.◌++◌ "Buyer payment received on " (texts.iso_text cmd.paid_at);
  idempotency_key = cmd.idempotency_key;
}

abbrev pub settlement_stmt : Generated → VirtualAccount → Stmt VirtualAccount
settlement_stmt given van = then_stmt (settle_account van.id) λ final_van.
    then_stmt (set_repaid van.invoice_id given.now) λ _.
      then_stmt
        (Events.append
          (record { invoice_id = van.invoice_id; event_type = invoice_repaid; actor_id = none })
          given)
        λ _. return_stmt final_van

settlement-Simulates :
    (cmd : RecordPaymentCommand) (given : Generated) (van : VirtualAccount)
    → Simulates (settlement cmd given van) (settlement_stmt given van)
unfolding settlement
settlement-Simulates cmd given van =
    >>=-Simulates _ _ _ _ (client_query-Simulates _)
      λ final_van. >>=-Simulates _ _ _ _ (client_query-Simulates _) λ _. last-Simulates _ final_van

-- What follows the increment: a settlement where the account has what was expected.
abbrev pub settle_if_full :
    Generated → VirtualAccount → VirtualAccount → Stmt (VirtualAccount × Bool)
settle_if_full given van updated =
    if leb updated.expected_amount_cents updated.received_amount_cents
    then then_stmt (settlement_stmt given van) (λ final_van. return_stmt (final_van, true))
    else return_stmt (updated, false)

settle_when_full-Simulates :
    (cmd : RecordPaymentCommand) (given : Generated) (van updated : VirtualAccount)
    → Simulates (settle_when_full cmd given van updated) (settle_if_full given van updated)
unfolding settle_when_full
settle_when_full-Simulates cmd given van updated =
    if-Simulates (leb updated.expected_amount_cents updated.received_amount_cents)
      (settlement cmd given van >>= (λ v. pure (v, true))) (pure (updated, false))
      (then_stmt (settlement_stmt given van) (λ v. return_stmt (v, true)))
      (return_stmt (updated, false))
      (map-Simulates (settlement cmd given van) (settlement_stmt given van) (λ v. (v, true))
        (settlement-Simulates cmd given van))
      (pure-Simulates {A = VirtualAccount × Bool} (updated, false))

abbrev pub payment_stmt :
    Texts → RecordPaymentCommand → Generated → VirtualAccount → Stmt (VirtualAccount × Bool)
payment_stmt texts cmd given van =
    then_stmt (append_ledger_entry (credit_input texts cmd van.id) given)
      λ _. then_stmt (update_received_amount van.id cmd.amount_cents) (settle_if_full given van)

pub payment-Simulates :
    (texts : Texts) (cmd : RecordPaymentCommand) (given : Generated) (van : VirtualAccount)
    → Simulates (payment texts cmd given van) (payment_stmt texts cmd given van)
unfolding payment
payment-Simulates texts cmd given van = >>=-Simulates _ _ _ _ (client_query-Simulates _) λ _.
    >>=-Simulates _ _ (settle_when_full cmd given van) (settle_if_full given van)
      (client_query-Simulates _) (settle_when_full-Simulates cmd given van)

abbrev pub van_input : CreateVanCommand → String → Generated → CreateVanInput
van_input cmd account_number given = record {
  invoice_id = cmd.invoice_id;
  account_number = account_number;
  ifsc_code = "YESB0CMSNOC";
  expected_amount_cents = cmd.expected_amount_cents;
  expires_at = given.now + ninety_days;
}

abbrev pub advance_input : Texts → CreateVanCommand → Invoice → ℕ → CreateLedgerEntryInput
advance_input texts cmd invoice van_id = record {
  virtual_account_id = van_id;
  entry_type = debit;
  amount_cents = cmd.expected_amount_cents;
  description = String.◌++◌ "Financing advance for invoice " invoice.invoice_number;
  idempotency_key = String.◌++◌ "advance-" (texts.uuid_text cmd.invoice_id);
}

abbrev pub opening_stmt :
    Texts → CreateVanCommand → String → Generated → Invoice → Stmt VirtualAccount
opening_stmt texts cmd account_number given invoice =
    then_stmt (create (van_input cmd account_number given) given) λ van.
      then_stmt (append_ledger_entry (advance_input texts cmd invoice van.id) given) λ _.
        then_stmt
          (Events.append
            (record { invoice_id = cmd.invoice_id; event_type = van_created; actor_id = none })
            given)
          λ _. return_stmt van

pub opening-Simulates :
    (texts : Texts) (cmd : CreateVanCommand) (account_number : String) (given : Generated)
    (invoice : Invoice)
    → Simulates
        (opening texts cmd account_number given invoice)
        (opening_stmt texts cmd account_number given invoice)
unfolding opening
opening-Simulates texts cmd account_number given invoice =
    >>=-Simulates _ _ _ _ (client_query-Simulates _)
      λ van. >>=-Simulates _ _ _ _ (client_query-Simulates _) λ _. last-Simulates _ van
