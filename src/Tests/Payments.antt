-- ===== src/Tests/Payments.antt =====
-- Payments to an account.
use vanguard_settlement_engi.Base.{Bool, trim, true, false, List, [], ◌∷◌, refl, ◌≡◌, ◌⊎◌, arith}
use vanguard_settlement_engi.Domain.{VirtualAccount, financing_requested}
use vanguard_settlement_engi.Errors.{Result, ok, err, duplicate_payment, queue_failure}
use vanguard_settlement_engi.Database.Session.{
  World, request_on, Job, pool_query, client_query, connect, begin_tx, commit_tx, rollback_tx,
  enqueue,
}
use vanguard_settlement_engi.Repositories.Vans
use vanguard_settlement_engi.Repositories.Events
use vanguard_settlement_engi.Repositories.Invoices
use vanguard_settlement_engi.Database.Calm.{calm}
use vanguard_settlement_engi.Database.Guards.{Wrote}
use vanguard_settlement_engi.Van.Service.{
  record_payment, check_payment, apply_payment, payment, settle_when_full, settlement, report,
  set_repaid, create_van, VanWithLedger,
}
use vanguard_settlement_engi.Van.Payments.{
  Accepted, Paid, record_payment-Paid, paid_tables, settled_tables,
}
use vanguard_settlement_engi.Van.Retries.{Refused, record_payment-at_most_once}
use vanguard_settlement_engi.Van.Outcomes.{record_payment-duplicate}
use vanguard_settlement_engi.Van.Outcomes.Success.{record_payment-goes}
use vanguard_settlement_engi.Van.Openings.{Opens, create_van-Opens}
use vanguard_settlement_engi.Tests.Samples.{
  texts, given, payment_command, van_command, tables_with, tables_to_pay, account,
  tables_with_foreign_entry,
}

-- The COMMIT fails.
record_payment-Paid_example :
    Wrote
      (λ t t'.
        (van : VirtualAccount) × Accepted texts (payment_command 40 "k1") (given 15) van t
        × Paid texts (payment_command 40 "k1") (given 15) van t t')
      (request_on tables_to_pay (false ∷ false ∷ false ∷ false ∷ false ∷ false ∷ true ∷ []))
      (record_payment texts
        (payment_command 40 "k1")
        (given 15)
        (request_on tables_to_pay (false ∷ false ∷ false ∷ false ∷ false ∷ false ∷ true ∷ [])))
record_payment-Paid_example =
    record_payment-Paid texts (payment_command 40 "k1") (given 15)
      (request_on tables_to_pay (false ∷ false ∷ false ∷ false ∷ false ∷ false ∷ true ∷ [])) refl

-- The queue fails behind the COMMIT of a full payment.
abbrev no_queue : List Bool
no_queue =
    false ∷ false ∷ false ∷ false ∷ false ∷ false ∷ false ∷ false ∷ false ∷ false ∷ false ∷ true
    ∷ []

abbrev unqueued : Result VanWithLedger × World
unqueued =
    record_payment texts (payment_command 90 "k1") (given 15) (request_on tables_to_pay no_queue)

-- It is answered with an error though the account is settled, and its receipt is not enqueued.
receipt_lost :
    (unqueued.0 ≡ err queue_failure)
    × (unqueued.1.committed
        ≡ settled_tables
            (given 15)
            account
            (paid_tables texts (payment_command 90 "k1") (given 15) account tables_to_pay))
    × (unqueued.1.jobs ≡ [])
unfolding record_payment check_payment apply_payment payment settle_when_full settlement report
    set_repaid pool_query client_query connect begin_tx commit_tx rollback_tx enqueue
    Vans.find_by_account_number Vans.get_ledger_entries Vans.append_ledger_entry
    Vans.update_received_amount Vans.settle_account Events.append Invoices.find_by_id trim
receipt_lost = (refl, refl, refl)

-- Sent again, nothing comes of it.
record_payment-at_most_once_example :
    let w = request_on tables_to_pay no_queue in
    let t = (record_payment texts (payment_command 90 "k1") (given 15) w).1.committed in
    (t ≡ tables_to_pay)
    ⊎ (Refused
          (request_on t [])
          (record_payment texts (payment_command 90 "k1") (given 16) (request_on t []))
        × ((record_payment texts (payment_command 90 "k1") (given 16) (request_on t [])).1.jobs
            ≡ []))
record_payment-at_most_once_example =
    record_payment-at_most_once texts (payment_command 90 "k1") (payment_command 90 "k1") (given 15)
      (given 16) (request_on tables_to_pay no_queue) [] refl refl

record_payment-duplicate_example :
    record_payment texts (payment_command 40 "k1") (given 15) (calm tables_with_foreign_entry [])
    ≡ (err (duplicate_payment "k1"), calm tables_with_foreign_entry [])
unfolding trim
record_payment-duplicate_example =
    record_payment-duplicate texts (payment_command 40 "k1") (given 15) tables_with_foreign_entry []
      account (refl, refl, refl, refl) (omega arith) (omega arith) refl

-- A payment of all that is expected.
record_payment-goes_example :
    (answer : VanWithLedger) × (jobs : List Job) × (record_payment texts
        (payment_command 90 "k1")
        (given 15)
        (calm tables_to_pay [])
      ≡ (
        ok answer,
        calm
            (settled_tables
              (given 15)
              account
              (paid_tables texts (payment_command 90 "k1") (given 15) account tables_to_pay))
            jobs,
      ))
unfolding trim
record_payment-goes_example =
    record_payment-goes texts (payment_command 90 "k1") (given 15) tables_to_pay [] account
      (record account { received_amount_cents = 90 }) (refl, refl, refl, refl) (omega arith)
      (omega arith) refl refl refl refl refl refl refl

create_van-Opens_example :
    Wrote
      (Opens texts van_command "VAN-1" (given 14))
      (request_on (tables_with financing_requested) [])
      (create_van texts van_command "VAN-1"
        (given 14)
        (request_on (tables_with financing_requested) []))
create_van-Opens_example =
    create_van-Opens texts van_command "VAN-1" (given 14)
      (request_on (tables_with financing_requested) []) refl
