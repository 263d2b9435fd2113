-- ===== src/Api/Authenticate.antt =====
-- services/middleware/authenticate.ts. `jwt.verify` with the secret is an argument: the package
-- `jsonwebtoken` is not part of the repository.
use Prim.Native.Char.{code}
use vanguard_settlement_engi.Base.{
  ℕ, String, Bool, true, false, Option, none, some, List, any, ◌==◌, ◌≡◌, ◌↔◌, refl, arith,
  if◌then◌else◌,
}
use vanguard_settlement_engi.Domain.{JwtPayload, OrgRole, supplier, buyer, platform_admin}
use vanguard_settlement_engi.Api.Replies.{
  Reply, fixed, role_not_permitted, missing_token, invalid_token, unauthenticated, forbidden,
}

-- What `jwt.verify` does with a token: the payload, or one of the two kinds of error.
pub data Verified : Type 0 where
  valid : JwtPayload → Verified
  token_expired other_failure : Verified

pub record Request : Type 0 where
  pub authorization : Option String
  pub user : Option JwtPayload

-- `next()` with the request as it then is, or a response.
pub data Step : Type 0 where
  passed : Request → Step
  replied : Reply → Step

-- `startsWith` with the rest behind the prefix, which `slice` takes.
abbrev pub after_prefix : String → String → Option String
after_prefix String.[] s = some s
after_prefix (String.◌∷◌ c p) String.[] = none
after_prefix (String.◌∷◌ c p) (String.◌∷◌ d s) = if code c == code d then after_prefix p s else none

abbrev pub bearer_token : Option String → Option String
bearer_token none = none
bearer_token (some header) = after_prefix "Bearer " header

module _ (verify : String → Verified) where
  abbrev pub verified : Request → Verified → Step
  verified req (valid payload) = passed (record req { user = some payload })
  verified req token_expired = replied (record {
    status = 401;
    code = invalid_token;
    message = fixed "Token has expired";
    details = false;
  })
  verified req other_failure = replied (record {
    status = 401;
    code = invalid_token;
    message = fixed "Invalid token";
    details = false;
  })

  abbrev pub with_token : Request → Option String → Step
  with_token req none = replied (record {
    status = 401;
    code = missing_token;
    message = fixed "Authorization header with Bearer token is required";
    details = false;
  })
  with_token req (some token) = verified req (verify token)

  unfoldable pub authenticate : Request → Step
  authenticate req = with_token req (bearer_token req.authorization)

abbrev pub role_rank : OrgRole → ℕ
role_rank supplier = 0
role_rank buyer = 1
role_rank platform_admin = 2

-- `allowedRoles.includes(role)`
abbrev pub includes : List OrgRole → OrgRole → Bool
includes allowed role = any (λ r. role_rank r == role_rank role) allowed

abbrev pub require_user : List OrgRole → Request → Option JwtPayload → Step
require_user allowed req none = replied (record {
  status = 401;
  code = unauthenticated;
  message = fixed "Not authenticated";
  details = false;
})
require_user allowed req (some user) =
    if includes allowed user.role
    then passed req
    else replied (record {
      status = 403;
      code = forbidden;
      message = role_not_permitted user.role;
      details = false;
    })

unfoldable pub require_role : List OrgRole → Request → Step
require_role allowed req = require_user allowed req req.user

-- One middleware behind the other.
infixl 20 ◌then◌
abbrev pub ◌then◌ : Step → (Request → Step) → Step
(passed req) then f = f req
(replied r) then f = replied r

-- A guarded route is reached exactly with a Bearer token that verifies to a payload of an allowed
-- role, and then with that payload as the request's user, whatever user the request had before.
pub require_role-authenticate :
    (verify : String → Verified) (allowed : List OrgRole) (req out : Request)
    → ((authenticate verify req then require_role allowed) ≡ passed out) ↔ (
        (token : String) × (user : JwtPayload) × (bearer_token req.authorization ≡ some token)
        × (verify token ≡ valid user)
        × (includes allowed user.role ≡ true)
        × (out ≡ record req { user = some user }))
unfolding authenticate require_role
require_role-authenticate verify allowed req out =
    (reached (bearer_token req.authorization) refl, unreached)
  where
    reached :
        (o : Option String)
        → bearer_token req.authorization ≡ o
        → ((with_token verify req o then require_role allowed) ≡ passed out)
        → (token : String) × (user : JwtPayload) × (bearer_token req.authorization ≡ some token)
          × (verify token ≡ valid user)
          × (includes allowed user.role ≡ true)
          × (out ≡ record req { user = some user })
    reached none e h = cc
    reached (some token) e h = checked (verify token) refl h
      where
        checked :
            (v : Verified)
            → verify token ≡ v
            → ((verified verify req v then require_role allowed) ≡ passed out)
            → (token : String) × (user : JwtPayload) × (bearer_token req.authorization ≡ some token)
              × (verify token ≡ valid user)
              × (includes allowed user.role ≡ true)
              × (out ≡ record req { user = some user })
        checked (valid user) q h = (token, user, e, q, ground arith, ground arith)
        checked token_expired q h = cc
        checked other_failure q h = cc

    unreached :
        ((token : String) × (user : JwtPayload) × (bearer_token req.authorization ≡ some token)
          × (verify token ≡ valid user)
          × (includes allowed user.role ≡ true)
          × (out ≡ record req { user = some user }))
        → ((authenticate verify req then require_role allowed) ≡ passed out)
    unreached (token, user, e, q, allowed_role, same) = rw e (rw q (ground arith))
