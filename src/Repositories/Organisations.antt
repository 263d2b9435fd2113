-- ===== src/Repositories/Organisations.antt =====
-- core/repositories/organisation.repository.ts, and the query for a supplier's e-mail address in
-- core/services/invoice.service.ts.
use vanguard_settlement_engi.Base.{
  ℕ, String, Bool, false, ◌||◌, Option, some, [], ◌∷◌, ◌++◌, ◌==◌, str_eq, find?, any,
  if◌then◌else◌,
}
use vanguard_settlement_engi.Domain.{Organisation, OrgType, KycStatus}
use vanguard_settlement_engi.Errors.{ok, err, database, unique_violation}
use vanguard_settlement_engi.Database.{Stmt, Generated, OrganisationCredential}

unfoldable pub find_by_id : ℕ → Stmt (Option Organisation)
find_by_id id t = ok (find? (λ o. o.id == id) t.organisations, t)

pub record CreateOrgInput : Type 0 where
  pub legal_name : String
  pub gstin : Option String
  pub org_type : OrgType

-- NULL is equal to nothing under UNIQUE.
abbrev pub same_gstin : Option String → Option String → Bool
same_gstin (some a) (some b) = str_eq a b
same_gstin _ _ = false

unfoldable pub create : CreateOrgInput → Generated → Stmt Organisation
create input given t =
    if any (λ o. o.id == given.row_id || same_gstin o.gstin input.gstin) t.organisations
    then err (database unique_violation)
    else let o : Organisation = record {
      id = given.row_id;
      legal_name = input.legal_name;
      gstin = input.gstin;
      org_type = input.org_type;
      kyc_status = KycStatus.pending;
      created_at = given.now;
      updated_at = given.now;
    } in
      ok (o, record t { organisations = t.organisations ++ o ∷ [] })

-- `SELECT email FROM organisation_credentials WHERE org_id = $1 LIMIT 1`
unfoldable pub find_credential_email : ℕ → Stmt (Option OrganisationCredential)
find_credential_email org_id t = ok (find? (λ c. c.org_id == org_id) t.organisation_credentials, t)
