-- ===== src/Auth/Orphans.antt =====
-- A registration that fails between its two INSERTs.
use vanguard_settlement_engi.Base.{
  String, true, false, ◌||◌, none, some, List, [], ◌∷◌, ◌++◌, ◌==◌, ◌≡◌, arith, find?, any,
  any-append, eq_iff,
}
use vanguard_settlement_engi.Domain.{JwtPayload}
use vanguard_settlement_engi.Errors.{err, database, connection_failure, unique_violation}
use vanguard_settlement_engi.Database.{Tables, Generated}
use vanguard_settlement_engi.Database.Session.{Job, pool_query}
use vanguard_settlement_engi.Database.Calm.{calm}
use vanguard_settlement_engi.Repositories.Organisations
use vanguard_settlement_engi.Repositories.Organisations.{same_gstin}
use vanguard_settlement_engi.Repositories.Credentials
use vanguard_settlement_engi.Repositories.Credentials.{has_email}
use vanguard_settlement_engi.Auth.Service.{RegisterOrgInput, register}
use vanguard_settlement_engi.Auth.Registration.{registered_org}

-- The organisation without its credential.
abbrev pub orphaned : RegisterOrgInput → String → Generated → Tables → Tables
orphaned input password_hash given t = record t {
  organisations = t.organisations ++ registered_org input password_hash given t ∷ [];
}

module _ (sign : JwtPayload → String) (input : RegisterOrgInput) (gstin password_hash : String)
    (given : Generated) (t : Tables) (jobs : List Job) where
  -- Where the connection is lost before the second INSERT, a registration with a GSTIN throws and
  -- leaves its organisation behind with no credential. Sent again, though nothing fails then, it is
  -- refused by the GSTIN and writes nothing.
  pub register-orphaned :
      (again : String) (later : Generated)
      → input.gstin ≡ some gstin
      → any (λ o. o.id == given.row_id || same_gstin o.gstin input.gstin) t.organisations ≡ false
      → find? (has_email input.email) t.organisation_credentials ≡ none
      → (register sign input password_hash given
            (record { committed = t; tx = none; faults = false ∷ false ∷ true ∷ []; jobs = jobs })
          ≡ (err (database connection_failure), calm (orphaned input password_hash given t) jobs))
        × (register sign input again later (calm (orphaned input password_hash given t) jobs)
            ≡ (err (database unique_violation), calm (orphaned input password_hash given t) jobs))
  unfolding register pool_query Credentials.find_by_email Organisations.create Credentials.create
  register-orphaned again later has_gstin new_org no_email =
      (ground (arith, no_email, new_org), ground (arith, no_email, taken))
    where
      taken :
          any
            (λ o. o.id == later.row_id || same_gstin o.gstin input.gstin)
            (orphaned input password_hash given t).organisations
          ≡ true
      taken = ground (
        arith,
        has_gstin,
        any-append (λ o. o.id == later.row_id || same_gstin o.gstin input.gstin) t.organisations
            (registered_org input password_hash given t ∷ []),
        eq_iff gstin gstin,
      )
