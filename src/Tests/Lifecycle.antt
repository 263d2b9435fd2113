-- ===== src/Tests/Lifecycle.antt =====
-- An invoice from its submission to the settlement of its account, its lifecycle's graph, and the
-- requests on it.
use vanguard_settlement_engi.Base.{◌≤◌, false, [], ◌∷◌, ◌++◌, refl, ◌≡◌, length, All}
use vanguard_settlement_engi.Domain.{
  draft, submitted, buyer_approved, financing_requested, funded, repaid,
}
use vanguard_settlement_engi.Database.Session.{request_on}
use vanguard_settlement_engi.Database.Guards.{Wrote}
use vanguard_settlement_engi.Invoice.StateMachine.{is_valid_transition, valid_transitions}
use vanguard_settlement_engi.Invoice.StateMachine.Graph.{is_valid_path-bound}
use vanguard_settlement_engi.Risk.Service.{assess_and_record}
use vanguard_settlement_engi.Risk.Records.{Assesses, assess_and_record-Assesses}
use vanguard_settlement_engi.System.{IsConsistent}
use vanguard_settlement_engi.System.Run.{
  run, run-IsConsistent, initial-IsConsistent, run-never_repayable,
}
use vanguard_settlement_engi.Tests.Samples.{
  texts, start, given, calls_before_payment, calls_of_payment, assess_command, tables_with,
}

run-IsConsistent_example : IsConsistent (run texts (calls_before_payment ++ calls_of_payment) start)
run-IsConsistent_example =
    run-IsConsistent texts (calls_before_payment ++ calls_of_payment) start
      (initial-IsConsistent start.organisations [])

run-never_repayable_example :
    All
      (λ i. is_valid_transition i.status repaid ≡ false)
      (run texts calls_before_payment start).invoices
run-never_repayable_example =
    run-never_repayable texts calls_before_payment start
      (initial-IsConsistent start.organisations [])

assess_and_record-Assesses_example :
    Wrote (Assesses assess_command 3 (given 13)) (request_on (tables_with financing_requested) []) (
      assess_and_record assess_command 3
        (given 13)
        (request_on (tables_with financing_requested) []))
assess_and_record-Assesses_example =
    assess_and_record-Assesses assess_command 3 (given 13)
      (request_on (tables_with financing_requested) []) refl

is_valid_path-bound_example :
    length (submitted ∷ buyer_approved ∷ financing_requested ∷ funded ∷ repaid ∷ []) ≤ 5
unfolding is_valid_transition valid_transitions
is_valid_path-bound_example =
    is_valid_path-bound draft
      (submitted ∷ buyer_approved ∷ financing_requested ∷ funded ∷ repaid ∷ []) refl
