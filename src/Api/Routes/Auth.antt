-- ===== src/Api/Routes/Auth.antt =====
-- services/routes/auth/auth.router.ts and auth.schemas.ts. Whether a text is an e-mail address is
-- decided by the package `zod`, and is an argument.
use vanguard_settlement_engi.Base.{
  ℕ, String, Bool, Option, none, some, ◌==◌, leb, js_length, trim, if◌then◌else◌,
}
use vanguard_settlement_engi.Domain.{OrgRole, JwtPayload}
use vanguard_settlement_engi.Errors.{Result, ok}
use vanguard_settlement_engi.Database.{Generated}
use vanguard_settlement_engi.Database.Session.{World, ◌>>=◌, pure, from_result}
use vanguard_settlement_engi.Auth.Service.{RegisterOrgInput, AuthResult, register, login}
use vanguard_settlement_engi.Api.Limits.{
  LimitReply, limit, login_limiter, registration_limiter, login_key,
}
use vanguard_settlement_engi.Api.Schemas.{field, ◌and_then◌, within_then_trim}
use vanguard_settlement_engi.Api.Routes.{Response, success, async_handler}

-- `z.enum(['supplier', 'buyer'])` of a field.
pub data RoleField : Type 0 where
  supplier buyer other_value : RoleField

abbrev pub role_of : RoleField → Option OrgRole
role_of supplier = some OrgRole.supplier
role_of buyer = some OrgRole.buyer
role_of other_value = none

-- A number is missing, or not a string, or there.
pub data GstinField : Type 0 where
  missing other_type : GstinField
  text : String → GstinField

-- `z.string().length(15).trim().optional()`
abbrev pub gstin_of : GstinField → Option (Option String)
gstin_of missing = some none
gstin_of other_type = none
gstin_of (text s) = if js_length s == 15 then some (some (trim s)) else none

pub record RegisterBody : Type 0 where
  pub legal_name : Option String
  pub gstin : GstinField
  pub role : RoleField
  pub email : Option String
  pub password : Option String

pub record LoginBody : Type 0 where
  pub email : Option String
  pub password : Option String

-- `z.string().min(n)`
abbrev pub at_least : ℕ → Option String → Option String
at_least n none = none
at_least n (some s) = if leb n (js_length s) then some s else none

module _ (is_email : String → Bool) where
  -- `z.string().email().trim()`
  abbrev pub email_of : Option String → Option String
  email_of none = none
  email_of (some s) = if is_email s then some (trim s) else none

  unfoldable pub parse_register : RegisterBody → Result RegisterOrgInput
  parse_register body = field (within_then_trim 2 200 body.legal_name) and_then λ legal_name.
      field (gstin_of body.gstin) and_then λ gstin. field (role_of body.role) and_then λ role.
      field (email_of body.email) and_then λ email.
      field (at_least 8 body.password) and_then λ password. ok (record {
        legal_name = legal_name;
        gstin = gstin;
        role = role;
        email = email;
        password = password;
      })

  unfoldable pub parse_login : LoginBody → Result (String × String)
  parse_login body = field (email_of body.email) and_then λ email.
      field (at_least 1 body.password) and_then λ password. ok (email, password)

-- A limiter's response, or the route's.
pub data AuthAnswer : Type 0 where
  limited : LimitReply → AuthAnswer
  answered : Response AuthResult → AuthAnswer

abbrev pub behind_limiter :
    Option LimitReply → (World → Response AuthResult × World) → World → AuthAnswer × World
behind_limiter (some reply) handler w = (limited reply, w)
behind_limiter none handler w = let (response, w') = handler w in (answered response, w')

module _ (is_test : Bool) (is_over : ℕ → String → Bool) (is_email : String → Bool)
    (sign : JwtPayload → String) where
  -- POST /auth/register; `hash` is `bcrypt.hash`.
  unfoldable pub post_register :
      (String → String) → String → RegisterBody → Generated → World → AuthAnswer × World
  unfolding limit parse_register
  post_register hash ip body given =
      behind_limiter (limit registration_limiter is_test is_over ip) (
        async_handler (do
          input ← from_result (parse_register is_email body)
          result ← register sign input (hash input.password) given
          pure (success 201 result)))

  -- POST /auth/login
  unfoldable pub post_login :
      (String → String → Bool) → String → LoginBody → ℕ → World → AuthAnswer × World
  unfolding limit parse_login login_key
  post_login compare ip body now =
      behind_limiter (limit login_limiter is_test is_over (login_key ip body.email)) (
        async_handler (do
          input ← from_result (parse_login is_email body)
          result ← login sign compare input.0 input.1 now
          pure (success 200 result)))
