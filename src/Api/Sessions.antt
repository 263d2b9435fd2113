-- ===== src/Api/Sessions.antt =====
-- The token of a login at the routes. That `jwt.verify` accepts what `jwt.sign` has made for the
-- credential, with the payload that went in, is a hypothesis: both use the same secret, and the token
-- has not expired.
use Prim.Native.String
use text.Mathlib.TextLemmas.{nil-append, cons-append}
use vanguard_settlement_engi.Base.{
  ℕ, String, Bool, true, some, none, List, find?, ◌≡◌, refl, ap, ◌∙◌, sym, arith,
}
use vanguard_settlement_engi.Domain.{JwtPayload, OrgRole}
use vanguard_settlement_engi.Errors.{ok}
use vanguard_settlement_engi.Database.{OrganisationCredential}
use vanguard_settlement_engi.Database.Session.{World}
use vanguard_settlement_engi.Repositories.Credentials.{has_email}
use vanguard_settlement_engi.Auth.Service.{AuthResult, login}
use vanguard_settlement_engi.Auth.Laws.{login-IsFor}
use vanguard_settlement_engi.Api.Authenticate.{
  Verified, valid, Request, passed, authenticate, require_role, ◌then◌, bearer_token, after_prefix,
  includes, require_role-authenticate,
}

-- A prefix is followed by what was put behind it.
after_prefix-append : (p s : String) → after_prefix p (String.◌++◌ p s) ≡ some s
after_prefix-append String.[] s = ap (after_prefix "") (nil-append s)
after_prefix-append (String.◌∷◌ c p) s =
    ap (after_prefix (String.◌∷◌ c p)) (cons-append c p s) ∙ ground (arith, after_prefix-append p s)

-- What a login signs for a credential.
abbrev pub payload_of : OrganisationCredential → JwtPayload
payload_of c = record { sub = c.org_id; email = c.email; role = c.role; org_id = c.org_id }

module _ (sign : JwtPayload → String) (verify : String → Verified)
    (compare : String → String → Bool) (email password : String) (now : ℕ) (w : World)
    (accepts : (c : OrganisationCredential)
      → find? (has_email email) w.committed.organisation_credentials ≡ some c
      → verify (sign (payload_of c)) ≡ valid (payload_of c)) where
  -- Whoever logs in is let through every guard that admits the role of the login's answer, and acts as
  -- the organisation of that answer. Organisation and role are those of the credential with the e-mail
  -- address, whose hash the password matches.
  pub login-authenticate :
      (v : World) (r : AuthResult) (req : Request) (allowed : List OrgRole)
      → w.tx ≡ none
      → login sign compare email password now w ≡ (ok r, v)
      → req.authorization ≡ some (String.◌++◌ "Bearer " r.token)
      → includes allowed r.role ≡ true
      → (c : OrganisationCredential) × (find? (has_email email) w.committed.organisation_credentials
          ≡ some c)
        × (compare password c.password_hash ≡ true)
        × (r.org_id ≡ c.org_id)
        × (r.role ≡ c.role)
        × ((authenticate verify req then require_role allowed)
            ≡ passed (record req { user = some (payload_of c) }))
  login-authenticate v r req allowed closed logged header admitted =
      let (c, found, matches, (org, role, token)) =
        login-IsFor sign compare email password now w r v closed logged in
      let bearer : bearer_token req.authorization ≡ some r.token =
        ap bearer_token header ∙ after_prefix-append "Bearer " r.token in
      let passes =
        (require_role-authenticate verify allowed req (record req { user = some (payload_of c) })).1
          (
            r.token,
            payload_of c,
            bearer,
            ap verify token ∙ accepts c found,
            ap (includes allowed) (sym role) ∙ admitted,
            refl,
          ) in
      (c, found, matches, org, role, passes)
