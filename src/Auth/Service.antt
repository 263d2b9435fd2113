-- ===== src/Auth/Service.antt =====
-- core/services/auth.service.ts. `bcrypt` and `jsonwebtoken` are not part of the repository: the hash
-- that `bcrypt.hash` gives, `bcrypt.compare` and `jwt.sign` are arguments.
use vanguard_settlement_engi.Base.{ℕ, String, Bool, true, false, not, Option, none, some, is_some}
use vanguard_settlement_engi.Domain.{
  OrgRole, OrgType, Organisation, JwtPayload, supplier, buyer, platform_admin,
}
use vanguard_settlement_engi.Errors.{plain, email_registered, invalid_credentials, account_inactive}
use vanguard_settlement_engi.Database.{Generated, OrganisationCredential}
use vanguard_settlement_engi.Database.Session.{
  M, ◌>>=◌, ◌>>◌, pure, throw, throw_if, try_catch, pool_query,
}
use vanguard_settlement_engi.Repositories.Organisations
use vanguard_settlement_engi.Repositories.Credentials

pub record RegisterOrgInput : Type 0 where
  pub legal_name : String
  pub gstin : Option String
  pub role : OrgRole
  pub email : String
  pub password : String

pub record AuthResult : Type 0 where
  pub token : String
  pub org_id : ℕ
  pub legal_name : String
  pub role : OrgRole

-- `input.role === 'platform_admin' ? 'platform' : input.role`
abbrev pub org_type_of : OrgRole → OrgType
org_type_of platform_admin = OrgType.platform
org_type_of supplier = OrgType.supplier
org_type_of buyer = OrgType.buyer

abbrev pub hash_to_compare : Option OrganisationCredential → String
hash_to_compare none = "$2a$12$dummyhashtopreventtimingattacksonnonexistentusers..xx"
hash_to_compare (some c) = c.password_hash

abbrev pub name_or_empty : Option Organisation → String
name_or_empty none = ""
name_or_empty (some o) = o.legal_name

module _ (sign : JwtPayload → String) where
  -- `expires_in` is a constant of the configuration and left out.
  abbrev pub build_auth_result : ℕ → String → OrgRole → String → AuthResult
  build_auth_result org_id email role legal_name = record {
    token = sign (record { sub = org_id; email = email; role = role; org_id = org_id });
    org_id = org_id;
    legal_name = legal_name;
    role = role;
  }

  -- The two INSERTs go through the pool, one after the other.
  unfoldable pub register : RegisterOrgInput → String → Generated → M AuthResult
  register input password_hash given = do
    existing ← pool_query (Credentials.find_by_email input.email)
    throw_if (is_some existing) (plain (email_registered input.email))
    org ← pool_query (
        Organisations.create
          (record {
            legal_name = input.legal_name;
            gstin = input.gstin;
            org_type = org_type_of input.role;
          })
          given)
    credential ← pool_query (
        Credentials.create
          (record {
            org_id = org.id;
            email = input.email;
            password_hash = password_hash;
            role = input.role;
          })
          given)
    pure (build_auth_result org.id input.email input.role org.legal_name)

  -- Behind the comparison. `recordLogin` is not waited for, and its failure is only logged.
  abbrev pub admit : OrganisationCredential → ℕ → M AuthResult
  admit credential now = do
    throw_if (not credential.is_active) account_inactive
    try_catch (pool_query (Credentials.record_login credential.org_id now)) (λ e. pure tt)
    org ← pool_query (Organisations.find_by_id credential.org_id)
    pure (build_auth_result credential.org_id credential.email credential.role (name_or_empty org))

  abbrev pub decide_login : Option OrganisationCredential → Bool → ℕ → M AuthResult
  decide_login none password_valid now = throw invalid_credentials
  decide_login (some credential) false now = throw invalid_credentials
  decide_login (some credential) true now = admit credential now

  unfoldable pub login : (String → String → Bool) → String → String → ℕ → M AuthResult
  login compare email password now = do
    credential ← pool_query (Credentials.find_by_email email)
    let password_valid = compare password (hash_to_compare credential)
    decide_login credential password_valid now
