-- ===== src/Repositories/Credentials.antt =====
-- core/repositories/auth.repository.ts, with the constraints of the table `organisation_credentials` in
-- infra/db/migrations.
use vanguard_settlement_engi.Base.{
  ℕ, ⊤, String, Bool, true, not, ◌&&◌, ◌||◌, Option, none, some, [], ◌∷◌, ◌++◌, ◌==◌, str_eq, trim,
  to_lower, find?, any, update_where, if◌then◌else◌,
}
use vanguard_settlement_engi.Domain.{OrgRole}
use vanguard_settlement_engi.Errors.{ok, err, database, unique_violation, foreign_key_violation}
use vanguard_settlement_engi.Database.{Stmt, Generated, OrganisationCredential}
use vanguard_settlement_engi.Repositories.Invoices.{org_exists}

-- `WHERE email = $1 AND is_active = true`
abbrev pub has_email : String → OrganisationCredential → Bool
has_email email c = str_eq c.email (trim (to_lower email)) && c.is_active

unfoldable pub find_by_email : String → Stmt (Option OrganisationCredential)
find_by_email email t = ok (find? (has_email email) t.organisation_credentials, t)

unfoldable pub find_by_org_id : ℕ → Stmt (Option OrganisationCredential)
find_by_org_id org_id t =
    ok (find? (λ c. c.org_id == org_id && c.is_active) t.organisation_credentials, t)

pub record CreateCredentialInput : Type 0 where
  pub org_id : ℕ
  pub email : String
  pub password_hash : String
  pub role : OrgRole

-- The row's identifier is `entry_id`, as `row_id` is the organisation's.
abbrev pub new_credential : CreateCredentialInput → Generated → OrganisationCredential
new_credential input given = record {
  id = given.entry_id;
  org_id = input.org_id;
  email = trim (to_lower input.email);
  password_hash = input.password_hash;
  role = input.role;
  is_active = true;
  last_login_at = none;
}

-- One of the three UNIQUE columns of a row is taken.
abbrev pub credential_clashes : CreateCredentialInput → Generated → OrganisationCredential → Bool
credential_clashes input given c =
    c.id == given.entry_id
    || c.org_id == input.org_id
    || str_eq c.email (trim (to_lower input.email))

unfoldable pub create : CreateCredentialInput → Generated → Stmt OrganisationCredential
create input given t =
    if any (credential_clashes input given) t.organisation_credentials
    then err (database unique_violation)
    else if not (org_exists input.org_id t)
    then err (database foreign_key_violation)
    else ok (
      new_credential input given,
      record t {
        organisation_credentials = t.organisation_credentials ++ new_credential input given ∷ [];
      },
    )

abbrev pub logged_in : ℕ → OrganisationCredential → OrganisationCredential
logged_in now c = record c { last_login_at = some now }

unfoldable pub record_login : ℕ → ℕ → Stmt ⊤
record_login org_id now t = ok (
  tt,
  record t {
    organisation_credentials =
        update_where (λ c. c.org_id == org_id) (logged_in now) t.organisation_credentials;
  },
)
