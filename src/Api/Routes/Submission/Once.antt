-- ===== src/Api/Routes/Submission/Once.antt =====
-- A submission that is sent again with its key.
use vanguard_settlement_engi.Base.{true, List, String, Bool, some, ◌≡◌, ◌≢◌, ◌⊎◌}
use vanguard_settlement_engi.Domain.{JwtPayload, Invoice}
use vanguard_settlement_engi.Database.Session.{World}
use vanguard_settlement_engi.Api.Idempotency.{Scope, Outcome, replayed, fails, rest_of}
use vanguard_settlement_engi.Api.Idempotency
use vanguard_settlement_engi.Api.Idempotency.Runs.{NotRun}
use vanguard_settlement_engi.Api.Routes.{Response, success}
use vanguard_settlement_engi.Api.Routes.Submission.{Answer, fresh, replay, Rows}

abbrev scope_of : String → JwtPayload → Scope
scope_of key user = record { key = key; org_id = user.sub; path = "/" }

-- Why a stored response is not sent: it was not stored, or a query of the guard fails.
abbrev pub Reason : Bool → List Bool → Type 0
Reason lost faults = (lost ≡ true) ⊎ ((fails faults ≡ true) ⊎ (fails (rest_of faults) ≡ true))

-- Nothing is written; the answer is the stored response or, for a reason, no fresh one.
abbrev pub AnsweredAgain : Bool → List Bool → Invoice → World → Answer × World × Rows → Type 0
AnsweredAgain lost faults i w x =
    (x.1 ≡ w)
    × ((x.0 ≡ replay 201 (some (success 201 i)))
        ⊎ (((r : Response Invoice) → x.0 ≢ fresh r) × Reason lost faults))

module _ (lost : Bool) (faults : List Bool) (i : Invoice) where
  -- The same of the guard's outcome.
  abbrev NotRunAgain : Outcome (Response Invoice) × Rows → Type 0
  NotRunAgain z = (z.0 ≡ replayed 201 (some (success 201 i))) ⊎ (NotRun z.0 × Reason lost faults)
