-- ===== src/Auth/Registration.antt =====
-- An organisation that has registered can log in.
use vanguard_settlement_engi.Base.{
  ℕ, String, Bool, true, false, ◌||◌, none, some, List, [], ◌∷◌, ◌++◌, ◌==◌, find?, any, any-append,
  find?-append, find?-none, eq_iff, trim, to_lower, ◌≡◌, arith,
}
use vanguard_settlement_engi.Domain.{JwtPayload, Organisation, KycStatus}
use vanguard_settlement_engi.Errors.{ok}
use vanguard_settlement_engi.Database.{Tables, Generated}
use vanguard_settlement_engi.Database.Session.{Job, pool_query}
use vanguard_settlement_engi.Database.Calm.{calm}
use vanguard_settlement_engi.Repositories.Organisations
use vanguard_settlement_engi.Repositories.Organisations.{same_gstin}
use vanguard_settlement_engi.Repositories.Credentials
use vanguard_settlement_engi.Repositories.Credentials.{
  CreateCredentialInput, has_email, new_credential, credential_clashes, logged_in,
}
use vanguard_settlement_engi.Auth.Service.{
  RegisterOrgInput, register, login, build_auth_result, org_type_of,
}

module _ (input : RegisterOrgInput) (password_hash : String) (given : Generated) (t : Tables) where
  abbrev pub registered_org : Organisation
  registered_org = record {
    id = given.row_id;
    legal_name = input.legal_name;
    gstin = input.gstin;
    org_type = org_type_of input.role;
    kyc_status = KycStatus.pending;
    created_at = given.now;
    updated_at = given.now;
  }

  abbrev pub credential_input : CreateCredentialInput
  credential_input = record {
    org_id = given.row_id;
    email = input.email;
    password_hash = password_hash;
    role = input.role;
  }

  abbrev pub registered_tables : Tables
  registered_tables = record t {
    organisations = t.organisations ++ registered_org ∷ [];
    organisation_credentials =
        t.organisation_credentials ++ new_credential credential_input given ∷ [];
  }

module _ (sign : JwtPayload → String) (input : RegisterOrgInput) (password_hash : String)
    (given : Generated) (t : Tables) (jobs : List Job) where
  module _
      (new_org : any (λ o. o.id == given.row_id || same_gstin o.gstin input.gstin) t.organisations
        ≡ false)
      (new_login : any
          (credential_clashes (credential_input input password_hash given t) given)
          t.organisation_credentials
        ≡ false) where
    no_email : find? (has_email input.email) t.organisation_credentials ≡ none
    no_email =
        find?-none (has_email input.email)
          (credential_clashes (credential_input input password_hash given t) given)
          t.organisation_credentials (λ c h. ground arith) new_login

    email_found :
        find?
          (has_email input.email)
          (registered_tables input password_hash given t).organisation_credentials
        ≡ some (new_credential (credential_input input password_hash given t) given)
    email_found =
        find?-append (has_email input.email) t.organisation_credentials
          (new_credential (credential_input input password_hash given t) given) no_email
          (ground (arith, eq_iff (trim (to_lower input.email)) (trim (to_lower input.email))))

    org_found :
        find?
          (λ o. o.id == given.row_id)
          (registered_tables input password_hash given t).organisations
        ≡ some (registered_org input password_hash given t)
    org_found =
        find?-append (λ o. o.id == given.row_id) t.organisations
          (registered_org input password_hash given t)
          (find?-none (λ o. o.id == given.row_id)
            (λ o. o.id == given.row_id || same_gstin o.gstin input.gstin) t.organisations
            (λ o h. ground arith) new_org)
          (ground arith)

    registered : register sign input password_hash given (calm t jobs) ≡ (
      ok (build_auth_result sign given.row_id input.email input.role input.legal_name),
      calm (registered_tables input password_hash given t) jobs,
    )
    unfolding register pool_query Credentials.find_by_email Organisations.create Credentials.create
    registered = ground (
      arith,
      no_email,
      any-append (λ o. o.id == given.row_id) t.organisations
          ((registered_org input password_hash given t) ∷ []),
    )

    -- Where nothing fails and nothing is taken, a registration goes through, and a login with its e-mail
    -- address and a password that matches the hash then gives a token of the new organisation.
    pub login-register :
        (compare : String → String → Bool) (later : ℕ)
        → compare input.password password_hash ≡ true
        → (register sign input password_hash given (calm t jobs) ≡ (
          ok (build_auth_result sign given.row_id input.email input.role input.legal_name),
          calm (registered_tables input password_hash given t) jobs,
        ))
          × ((login sign compare input.email input.password later
                (calm (registered_tables input password_hash given t) jobs)).0
              ≡ ok (
                  build_auth_result sign given.row_id
                    (trim (to_lower input.email))
                    input.role
                    input.legal_name))
    unfolding login pool_query Credentials.find_by_email Credentials.record_login
        Organisations.find_by_id
    login-register compare later matches =
        (registered, ground (arith, email_found, org_found, matches))
