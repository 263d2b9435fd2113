-- ===== src/Tests/Server.antt =====
-- Requests to the whole server.
use vanguard_settlement_engi.Base.{false, true, some, List, [], ◌∷◌, str_eq}
use vanguard_settlement_engi.Domain.{financing_requested}
use vanguard_settlement_engi.System.{IsConsistent}
use vanguard_settlement_engi.System.Run.{initial-IsConsistent}
use vanguard_settlement_engi.Api.Authenticate.{token_expired}
use vanguard_settlement_engi.Api.Routes.{Notification}
use vanguard_settlement_engi.Infra.FailedJobs.{JobRow}
use vanguard_settlement_engi.Server.{
  Packages, Arrival, HttpCall, State, serve_all, send_invoice, send_approval, notify_payment,
  ask_assessment,
}
use vanguard_settlement_engi.Server.Consistency.{serve_all-IsConsistent}
use vanguard_settlement_engi.Tests.Samples.{texts, given, start, tables_with}
use vanguard_settlement_engi.Tests.Routes.{verify, json_parse, hmac_hex, risk_body, request_with}
use vanguard_settlement_engi.Tests.Submission.{body, undisturbed}
use vanguard_settlement_engi.Tests.Infra.{bull, queues}

abbrev packages : Packages (List JobRow)
packages = record {
  verify = verify;
  sign = λ payload. payload.email;
  hash = λ password. password;
  compare = str_eq;
  is_email = λ email. true;
  json_parse = json_parse;
  hmac_hex = hmac_hex;
  texts = texts;
  bull = bull;
}

abbrev arrival : HttpCall → Arrival
arrival call = record { ip = "::1"; is_over = λ max key. false; faults = []; call = call }

-- An invoice comes in and is approved.
abbrev arrivals : List Arrival
arrivals =
    arrival (send_invoice body (given 10) undisturbed (some "k") (request_with "Bearer s"))
    ∷ arrival (send_approval 10 (some "signed-by-buyer") (given 11) (request_with "Bearer b"))
    ∷ []

serve_all-IsConsistent_example :
    IsConsistent
      (serve_all packages arrivals
        (record { tables = start; idempotency_keys = []; queues = queues })).tables
serve_all-IsConsistent_example =
    serve_all-IsConsistent packages arrivals
      (record { tables = start; idempotency_keys = []; queues = queues })
      (initial-IsConsistent start.organisations [])

-- No token is good any longer.
abbrev closed : Packages (List JobRow)
closed = record packages { verify = λ token. token_expired }

abbrev forged : Notification
forged = record { signature = some "0000"; bytes = 123 ∷ 125 ∷ [] }

abbrev unsigned_arrivals : List Arrival
unsigned_arrivals =
    arrival (notify_payment forged (given 15))
    ∷ arrival (ask_assessment risk_body (given 13))
    ∷ arrival (send_approval 10 (some "signed-by-buyer") (given 11) (request_with "Bearer b"))
    ∷ []

abbrev requested : State (List JobRow)
requested = record {
  tables = tables_with financing_requested;
  idempotency_keys = [];
  queues = queues;
}
