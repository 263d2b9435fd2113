-- ===== src/Van/Reports.antt =====
-- Behind its COMMIT, and before its BEGIN, a payment leaves the tables alone.
use vanguard_settlement_engi.Base.{ℕ, Option, none, some, Bool, true, false, str_eq, any, trim}
use vanguard_settlement_engi.Domain.{Invoice, VirtualAccount}
use vanguard_settlement_engi.Errors.{plain, van_has_expired, van_is_settled, duplicate_payment}
use vanguard_settlement_engi.Database.Transaction.{IsQuiet}
use vanguard_settlement_engi.Database.Quiet.{
  pure-IsQuiet, throw_if-IsQuiet, or_throw-IsQuiet, pool_query-IsQuiet, commit_tx-IsQuiet,
  enqueue-IsQuiet, >>=-IsQuiet,
}
use vanguard_settlement_engi.Repositories.Reads.{
  invoice_by_id-Reads, van_by_account-Reads, entries-Reads,
}
use vanguard_settlement_engi.Van.Service.{
  RecordPaymentCommand, check_payment, report, enqueue_receipt, enqueue_for, is_expired, is_settled,
}

enqueue_for-IsQuiet : (found : Option Invoice) → IsQuiet (enqueue_for found)
enqueue_for-IsQuiet none = pure-IsQuiet tt
enqueue_for-IsQuiet (some invoice) = enqueue-IsQuiet _

enqueue_receipt-IsQuiet : (full : Bool) (id : ℕ) → IsQuiet (enqueue_receipt full id)
enqueue_receipt-IsQuiet false id = pure-IsQuiet tt
enqueue_receipt-IsQuiet true id =
    >>=-IsQuiet _ enqueue_for (pool_query-IsQuiet _ (invoice_by_id-Reads id)) enqueue_for-IsQuiet

pub report-IsQuiet : (van : VirtualAccount) (p : VirtualAccount × Bool) → IsQuiet (report van p)
unfolding report
report-IsQuiet van (final_van, full) =
    >>=-IsQuiet (enqueue_receipt full van.invoice_id) _
      (enqueue_receipt-IsQuiet full van.invoice_id)
      λ _.
        >>=-IsQuiet _ _ commit_tx-IsQuiet
          λ _. >>=-IsQuiet _ _ (pool_query-IsQuiet _ (entries-Reads van.id)) λ _. pure-IsQuiet _

pub check_payment-IsQuiet : (cmd : RecordPaymentCommand) → IsQuiet (check_payment cmd)
unfolding check_payment
check_payment-IsQuiet cmd =
    >>=-IsQuiet _ _ (pool_query-IsQuiet _ (van_by_account-Reads cmd.account_number)) λ found.
      >>=-IsQuiet _ _ (or_throw-IsQuiet found _) λ van.
        >>=-IsQuiet _ _
          (throw_if-IsQuiet (is_expired van.status) (plain (van_has_expired cmd.account_number)))
          λ _. >>=-IsQuiet _ _ (pool_query-IsQuiet _ (entries-Reads van.id)) λ entries.
            >>=-IsQuiet _ _
              (throw_if-IsQuiet
                (any (λ e. str_eq (trim e.idempotency_key) (trim cmd.idempotency_key)) entries)
                (duplicate_payment cmd.idempotency_key))
              λ _.
                >>=-IsQuiet _ _
                  (throw_if-IsQuiet (is_settled van.status)
                    (plain (van_is_settled cmd.account_number)))
                  λ _. pure-IsQuiet van
