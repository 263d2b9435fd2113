-- ===== src/Tests/System.antt =====
-- All the calls of an invoice's life, and what they are to the abstract book.
use vanguard_settlement_engi.Base.{[], ◌++◌, refl}
use vanguard_settlement_engi.Database.Session.{request_on}
use vanguard_settlement_engi.Database.Guards.{Wrote}
use vanguard_settlement_engi.Van.Service.{record_payment}
use vanguard_settlement_engi.System.Book.{Steps}
use vanguard_settlement_engi.System.Refinement.{book, run-Steps}
use vanguard_settlement_engi.System.Refinement.Payment.{Pays, record_payment-Pays}
use vanguard_settlement_engi.System.Trail.{IsLater, run-IsLater}
use vanguard_settlement_engi.System.Run.{run}
use vanguard_settlement_engi.Tests.Samples.{
  texts, given, start, calls_before_payment, calls_of_payment, tables_to_pay, payment_command,
}

run-Steps_example :
    Steps (book start) (book (run texts (calls_before_payment ++ calls_of_payment) start))
run-Steps_example = run-Steps texts (calls_before_payment ++ calls_of_payment) start

run-IsLater_example : IsLater start (run texts (calls_before_payment ++ calls_of_payment) start)
run-IsLater_example = run-IsLater texts (calls_before_payment ++ calls_of_payment) start

record_payment-Pays_example :
    Wrote
      (Pays (payment_command 40 "k1"))
      (request_on tables_to_pay [])
      (record_payment texts (payment_command 40 "k1") (given 15) (request_on tables_to_pay []))
record_payment-Pays_example =
    record_payment-Pays texts (payment_command 40 "k1") (given 15) (request_on tables_to_pay [])
      refl
