-- ===== src/Tests/Routes.antt =====
-- Requests to the routes.
use vanguard_settlement_engi.Base.{
  ℕ, String, Bool, true, false, Option, none, some, List, [], ◌∷◌, str_eq, if◌then◌else◌, ◌≡◌, refl,
}
use vanguard_settlement_engi.Domain.{OrgRole, submitted, buyer_approved, financing_requested}
use vanguard_settlement_engi.Database.Session.{request_on}
use vanguard_settlement_engi.Api.Authenticate.{
  Verified, valid, token_expired, Request, authenticate, require_role,
}
use vanguard_settlement_engi.Api.Schemas.{PaymentBody, CreateVanBody, AssessRiskBody}
use vanguard_settlement_engi.Api.Routes.{
  Response, success, Notification, post_approve, post_request_financing, post_payment, post_van,
}
use vanguard_settlement_engi.Api.Routes.Answers.{Answered}
use vanguard_settlement_engi.Api.Routes.Accounts.{OpensOverHttp, post_van-Answered}
use vanguard_settlement_engi.Api.Routes.Safety.{
  ApprovesOverHttp, RequestsOverHttp, PaysOverHttp, post_approve-Answered,
  post_request_financing-Answered, post_payment-Answered,
}
use vanguard_settlement_engi.Tests.Samples.{texts, given, tables_with, tables_to_pay}

abbrev pub verify : String → Verified
verify token =
    if str_eq token "b"
    then valid (record { sub = 2; email = "b@b.in"; role = OrgRole.buyer; org_id = 2 })
    else if str_eq token "s"
    then valid (record { sub = 1; email = "s@s.in"; role = OrgRole.supplier; org_id = 1 })
    else token_expired

abbrev is_success : {A : Type 0} → Response A → Bool
is_success (success status a) = true
is_success _ = false

abbrev pub request_with : String → Request
request_with header = record { authorization = some header; user = none }

post_approve-Answered_example :
    Answered
      (λ _. 200)
      (ApprovesOverHttp verify 10 (given 11) (request_with "Bearer b") (some "signed-by-buyer"))
      (request_on (tables_with submitted) [])
      (post_approve verify 10
        (some "signed-by-buyer")
        (given 11)
        (request_with "Bearer b")
        (request_on (tables_with submitted) []))
post_approve-Answered_example =
    post_approve-Answered verify 10 (given 11) (request_with "Bearer b")
      (request_on (tables_with submitted) []) (some "signed-by-buyer") refl

post_request_financing-Answered_example :
    Answered
      (λ _. 200)
      (RequestsOverHttp verify 10 (given 12) (request_with "Bearer s"))
      (request_on (tables_with buyer_approved) [])
      (post_request_financing verify 10
        (given 12)
        (request_with "Bearer s")
        (request_on (tables_with buyer_approved) []))
post_request_financing-Answered_example =
    post_request_financing-Answered verify 10 (given 12) (request_with "Bearer s")
      (request_on (tables_with buyer_approved) []) refl

abbrev pub json_parse : List ℕ → Option PaymentBody
json_parse bytes = some (record {
  account_number = some "VAN-1";
  amount_cents = some 40;
  idempotency_key = some " k1";
  paid_at = some 2000;
})

abbrev pub hmac_hex : List ℕ → String
hmac_hex bytes = "0aff"

abbrev notification : Notification
notification = record { signature = some "0AFF"; bytes = 123 ∷ 125 ∷ [] }

post_payment-Answered_example :
    Answered
      (λ _. 200)
      (PaysOverHttp json_parse hmac_hex texts notification (given 15))
      (request_on tables_to_pay [])
      (post_payment json_parse hmac_hex texts notification (given 15) (request_on tables_to_pay []))
post_payment-Answered_example =
    post_payment-Answered json_parse hmac_hex texts notification (given 15)
      (request_on tables_to_pay []) refl

-- The buyer's route refuses a supplier's token.
not_by_supplier :
    is_success
      (post_approve verify 10
        (some "signed-by-buyer")
        (given 11)
        (request_with "Bearer s")
        (request_on (tables_with submitted) [])).0
    ≡ false
unfolding post_approve authenticate require_role
not_by_supplier = refl

abbrev van_body : CreateVanBody
van_body = record { invoice_id = some 10; expected_amount_cents = some 90 }

post_van-Answered_example :
    Answered
      (λ _. 201)
      (OpensOverHttp verify texts van_body "VAN-1" (given 14) (request_with "Bearer s"))
      (request_on (tables_with financing_requested) [])
      (post_van verify texts van_body "VAN-1"
        (given 14)
        (request_with "Bearer s")
        (request_on (tables_with financing_requested) []))
post_van-Answered_example =
    post_van-Answered verify texts van_body "VAN-1" (given 14) (request_with "Bearer s")
      (request_on (tables_with financing_requested) []) refl

-- The documents do not agree.
abbrev pub risk_body : AssessRiskBody
risk_body = record {
  invoice_id = some 10;
  three_way_match_input = some (record {
    invoice_id = some 10;
    invoice_amount_cents = some 100;
    po_amount_cents = some 1;
    delivery_amount_cents = some 100;
    po_number = some "PO-1";
    delivery_receipt_id = some "DR-1";
  });
  anomaly_signals = some (record {
    invoice_id = some 10;
    buyer_id = some 2;
    supplier_id = some 1;
    amount_cents = some 100;
    due_date = some 5000;
    submitted_at = some 1000;
    avg_invoice_amount_cents = some 100;
    days_until_due = some 40;
    prior_default_count = some 0;
  });
}
