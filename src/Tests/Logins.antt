-- ===== src/Tests/Logins.antt =====
-- Logins, and a bank's notification.
use vanguard_settlement_engi.Base.{
  ap, ℕ, String, Bool, true, false, none, some, List, [], ◌∷◌, find?, str_eq, trim, to_lower, refl,
  ◌≡◌, ◌≢◌, ◌↔◌,
}
use vanguard_settlement_engi.Domain.{JwtPayload, OrgRole}
use vanguard_settlement_engi.Errors.{ok, err, database, connection_failure, unique_violation}
use vanguard_settlement_engi.Database.{Tables, OrganisationCredential}
use vanguard_settlement_engi.Database.Session.{pool_query}
use vanguard_settlement_engi.Database.Calm.{calm}
use vanguard_settlement_engi.Repositories.Organisations
use vanguard_settlement_engi.Repositories.Credentials
use vanguard_settlement_engi.Repositories.Credentials.{has_email, logged_in}
use vanguard_settlement_engi.Auth.Service.{
  AuthResult, RegisterOrgInput, login, register, build_auth_result,
}
use vanguard_settlement_engi.Api.Sessions.{payload_of, login-authenticate}
use vanguard_settlement_engi.Api.Authenticate.{
  Verified, valid, Request, passed, authenticate, require_role, ◌then◌,
}
use vanguard_settlement_engi.Api.Replies.{Reply, failed_expected, invalid_webhook_signature}
use vanguard_settlement_engi.Api.WebhookAuth.{
  WebhookRequest, accepted, from_hex, verify_webhook_signature, verify_webhook_signature-accepts,
  verify_webhook_signature-leaks,
}
use vanguard_settlement_engi.Auth.Registration.{registered_tables, login-register}
use vanguard_settlement_engi.Auth.Orphans.{orphaned, register-orphaned}
use vanguard_settlement_engi.Tests.Samples.{start, given}

abbrev sign : JwtPayload → String
sign payload = payload.email

abbrev compare : String → String → Bool
compare password hash = str_eq password hash

abbrev credential : OrganisationCredential
credential = record {
  id = 7;
  org_id = 1;
  email = "a@b.in";
  password_hash = "secret";
  role = OrgRole.supplier;
  is_active = true;
  last_login_at = none;
}

abbrev with_credential : Tables
with_credential = record start { organisation_credentials = credential ∷ [] }

abbrev after_login : Tables
after_login = record start { organisation_credentials = logged_in 9 credential ∷ [] }

abbrev logged_result : AuthResult
logged_result = build_auth_result sign 1 "a@b.in" OrgRole.supplier "Works"

-- Every token is the credential's.
abbrev verify : String → Verified
verify token = valid (payload_of credential)

abbrev with_token : Request
with_token = record { authorization = some "Bearer a@b.in"; user = none }

found_credential :
    (c : OrganisationCredential)
    → find? (has_email " A@b.in") (credential ∷ []) ≡ some c
    → valid (payload_of credential) ≡ valid (payload_of c)
unfolding trim to_lower
found_credential c found = let same : credential ≡ c = cc in ap (λ x. valid (payload_of x)) same

login-authenticate_example :
    (c : OrganisationCredential) × (find? (has_email " A@b.in") (credential ∷ []) ≡ some c)
    × (compare "secret" c.password_hash ≡ true)
    × (logged_result.org_id ≡ c.org_id)
    × (logged_result.role ≡ c.role)
    × ((authenticate verify with_token then require_role (OrgRole.supplier ∷ []))
        ≡ passed (record with_token { user = some (payload_of c) }))
unfolding login pool_query Credentials.find_by_email Credentials.record_login
    Organisations.find_by_id trim to_lower
login-authenticate_example =
    login-authenticate sign verify compare " A@b.in" "secret" 9 (calm with_credential [])
      found_credential (calm after_login []) logged_result with_token (OrgRole.supplier ∷ []) refl
      refl refl refl

abbrev hmac_hex : List ℕ → String
hmac_hex raw_body = "0aff"

abbrev notification : String → WebhookRequest
notification signature = record { signature = some signature; raw_body = some (1 ∷ []) }

verify_webhook_signature-accepts_example :
    (verify_webhook_signature hmac_hex false (notification "0AFF") ≡ accepted) ↔ (
      (signature : String) × (raw_body : List ℕ) × (some "0AFF" ≡ some signature)
      × (signature ≢ "")
      × (some (1 ∷ []) ≡ some raw_body)
      × (from_hex signature ≡ from_hex (hmac_hex raw_body)))
verify_webhook_signature-accepts_example =
    verify_webhook_signature-accepts hmac_hex (notification "0AFF")

abbrev leaking_reply : Reply
leaking_reply = record {
  status = 401;
  code = invalid_webhook_signature;
  message = failed_expected "0aff";
  details = false;
}

verify_webhook_signature-leaks_example :
    verify_webhook_signature hmac_hex false (notification "0aff") ≡ accepted
unfolding verify_webhook_signature
verify_webhook_signature-leaks_example =
    verify_webhook_signature-leaks hmac_hex (notification "0000") leaking_reply "0aff" refl refl
      (λ h. cc)

abbrev registration : RegisterOrgInput
registration = record {
  legal_name = "Mills";
  gstin = some "22AAAAA0000A1Z5";
  role = OrgRole.buyer;
  email = "M@c.in";
  password = "pw";
}

login-register_example :
    let t = registered_tables registration "pw" (given 20) start in
    (register sign registration "pw" (given 20) (calm start [])
      ≡ (ok (build_auth_result sign 20 "M@c.in" OrgRole.buyer "Mills"), calm t []))
    × ((login sign compare "M@c.in" "pw" 9 (calm t [])).0
        ≡ ok (build_auth_result sign 20 (trim (to_lower "M@c.in")) OrgRole.buyer "Mills"))
login-register_example =
    login-register sign registration "pw" (given 20) start [] refl refl compare 9 refl

-- A registration whose second INSERT fails, and the same again.
register-orphaned_example :
    let t = orphaned registration "pw" (given 20) start in
    (register sign registration "pw"
        (given 20)
        (record { committed = start; tx = none; faults = false ∷ false ∷ true ∷ []; jobs = [] })
      ≡ (err (database connection_failure), calm t []))
    × (register sign registration "pw" (given 21) (calm t [])
        ≡ (err (database unique_violation), calm t []))
register-orphaned_example =
    register-orphaned sign registration "22AAAAA0000A1Z5" "pw" (given 20) start [] "pw" (given 21)
      refl refl refl
