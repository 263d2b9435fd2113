-- ===== src/Server/Handlers.antt =====
-- What the handlers of the routes keep, those of the users' accounts included.
use vanguard_settlement_engi.Base.{
  ℕ, String, Bool, Option, none, some, List, ◌≡◌, not, true, false, is_some, ◌==◌, ◌||◌, any, ⊤,
}
use vanguard_settlement_engi.Domain.{JwtPayload, Organisation, Invoice}
use vanguard_settlement_engi.Errors.{
  invalid_credentials, account_inactive, type_error, plain, email_registered,
}
use vanguard_settlement_engi.Database.{Tables, Generated, OrganisationCredential}
use vanguard_settlement_engi.Database.Session.{World, M}
use vanguard_settlement_engi.Database.Transaction.{IsQuiet}
use vanguard_settlement_engi.Database.Quiet.{
  pure-IsQuiet, throw_if-IsQuiet, or_throw-IsQuiet, from_result-IsQuiet, pool_query-IsQuiet,
  >>=-IsQuiet,
}
use vanguard_settlement_engi.Database.Hoare.{Holds, if-Holds}
use vanguard_settlement_engi.Database.Preserves.{Preserves, quiet-Preserves, >>=-Preserves}
use vanguard_settlement_engi.Database.Preserves.Pool.{
  quiet->>=, pool_query-Preserves, try_catch-Preserves,
}
use vanguard_settlement_engi.Repositories.Organisations
use vanguard_settlement_engi.Repositories.Invoices.{org_exists}
use vanguard_settlement_engi.Repositories.Organisations.{CreateOrgInput, same_gstin}
use vanguard_settlement_engi.Repositories.Credentials.{CreateCredentialInput, credential_clashes}
use vanguard_settlement_engi.Server.Rules.{
  throw-Preserves, async_handler-keeps, returned-Preserves, duplicate_is_recorded-Preserves,
}
use vanguard_settlement_engi.Repositories.Credentials
use vanguard_settlement_engi.Repositories.Reads.{
  credential-Reads, organisation-Reads, invoice_by_id-Reads, events-Reads, van_by_invoice-Reads,
  entries-Reads,
}
use vanguard_settlement_engi.Auth.Service.{
  RegisterOrgInput, register, login, decide_login, admit, hash_to_compare,
}
use vanguard_settlement_engi.Invoice.Service.{get_invoice_history}
use vanguard_settlement_engi.Van.Service.{Texts, get_van_details}
use vanguard_settlement_engi.System.Calls.{
  IsKept, submit_invoice-Preserves, record_payment-Preserves,
}
use vanguard_settlement_engi.Api.Authenticate.{Request, Step, passed, replied}
use vanguard_settlement_engi.Api.Routes.{Response, payment_handler}
use vanguard_settlement_engi.Api.Schemas.{
  PaymentBody, parse_payment, SubmitInvoiceBody, parse_submission,
}
use vanguard_settlement_engi.Api.Routes.Submission.{
  Circumstances, Rows, submit_handler, after_guard, guarded_submit,
}
use vanguard_settlement_engi.Api.Idempotency.{Outcome, passed_on, watched, replayed, threw, Scope}
use vanguard_settlement_engi.Api.Idempotency

-- A property that neither the services' transactions nor a write of the accounts of users can break.
pub record IsKeptByAll (texts : Texts) (P : Tables → Type 0) : Type 0 where
  pub kept : IsKept texts P
  pub access :
      (organisations : List Organisation) (credentials : List OrganisationCredential) (t : Tables)
      → P t
      → P (record t { organisations = organisations; organisation_credentials = credentials })

module _ (id : ℕ) where
  pub get_invoice_history-IsQuiet : IsQuiet (get_invoice_history id)
  unfolding get_invoice_history
  get_invoice_history-IsQuiet =
      >>=-IsQuiet _ _ (pool_query-IsQuiet _ (invoice_by_id-Reads id)) λ found.
        >>=-IsQuiet _ _ (pool_query-IsQuiet _ (events-Reads id))
          λ events. >>=-IsQuiet _ _ (or_throw-IsQuiet found _) λ invoice. pure-IsQuiet _

  pub get_van_details-IsQuiet : IsQuiet (get_van_details id)
  unfolding get_van_details
  get_van_details-IsQuiet =
      >>=-IsQuiet _ _ (pool_query-IsQuiet _ (van_by_invoice-Reads id)) λ found.
        >>=-IsQuiet _ _ (or_throw-IsQuiet found _) λ van.
          >>=-IsQuiet _ _ (pool_query-IsQuiet _ (entries-Reads van.id)) λ entries. pure-IsQuiet _

module _ (P : Tables → Type 0)
    (access : (organisations : List Organisation) (credentials : List OrganisationCredential)
        (t : Tables)
      → P t
      → P (record t {
        organisations = organisations;
        organisation_credentials = credentials;
      })) where
  create_org-Holds :
      (input : CreateOrgInput) (given : Generated) (t : Tables)
      → P t
      → Holds {A = Organisation} (λ _ t'. P t') (Organisations.create input given t)
  unfolding Organisations.create
  create_org-Holds input given t p =
      if-Holds _ (any (λ o. o.id == given.row_id || same_gstin o.gstin input.gstin) t.organisations)
        _ _ tt (access _ t.organisation_credentials t p)

  create_credential-Holds :
      (input : CreateCredentialInput) (given : Generated) (t : Tables)
      → P t
      → Holds {A = OrganisationCredential} (λ _ t'. P t') (Credentials.create input given t)
  unfolding Credentials.create
  create_credential-Holds input given t p =
      if-Holds _ (any (credential_clashes input given) t.organisation_credentials) _ _ tt
        (if-Holds _ (not (org_exists input.org_id t)) _ _ tt (access t.organisations _ t p))

  record_login-Holds :
      (org_id now : ℕ) (t : Tables)
      → P t
      → Holds {A = ⊤} (λ _ t'. P t') (Credentials.record_login org_id now t)
  unfolding Credentials.record_login
  record_login-Holds org_id now t p = access t.organisations _ t p

  module _ (sign : JwtPayload → String) where
    pub register-Preserves :
        (input : RegisterOrgInput) (password_hash : String) (given : Generated)
        → Preserves P (register sign input password_hash given)
    unfolding register
    register-Preserves input password_hash given =
        quiet->>= P _ _ (pool_query-IsQuiet _ (credential-Reads input.email)) λ existing.
          quiet->>= P _ _
            (throw_if-IsQuiet (is_some existing) (plain (email_registered input.email)))
            λ _. >>=-Preserves P _ _ (pool_query-Preserves P _ (create_org-Holds _ given)) λ org.
              >>=-Preserves P _ _ (pool_query-Preserves P _ (create_credential-Holds _ given))
                λ credential. quiet-Preserves P _ (pure-IsQuiet _)

    admit-Preserves :
        (credential : OrganisationCredential) (now : ℕ) → Preserves P (admit sign credential now)
    admit-Preserves credential now =
        quiet->>= P _ _ (throw_if-IsQuiet (not credential.is_active) account_inactive) λ _.
          >>=-Preserves P _ _
            (try_catch-Preserves P _ _
              (pool_query-Preserves P _ (record_login-Holds credential.org_id now))
              (λ e. quiet-Preserves P _ (pure-IsQuiet tt)))
            λ _.
              quiet->>= P _ _ (pool_query-IsQuiet _ (organisation-Reads credential.org_id))
                λ org. quiet-Preserves P _ (pure-IsQuiet _)

    decide_login-Preserves :
        (found : Option OrganisationCredential) (valid : Bool) (now : ℕ)
        → Preserves P (decide_login sign found valid now)
    decide_login-Preserves none valid now = throw-Preserves P invalid_credentials
    decide_login-Preserves (some credential) false now = throw-Preserves P invalid_credentials
    decide_login-Preserves (some credential) true now = admit-Preserves credential now

    pub login-Preserves :
        (compare : String → String → Bool) (email password : String) (now : ℕ)
        → Preserves P (login sign compare email password now)
    unfolding login
    login-Preserves compare email password now =
        quiet->>= P _ _ (pool_query-IsQuiet _ (credential-Reads email)) λ credential.
          decide_login-Preserves credential (compare password (hash_to_compare credential)) now

module _ (texts : Texts) (P : Tables → Type 0) (k : IsKeptByAll texts P) where
  pub payment_handler-Preserves :
      (body : PaymentBody) (given : Generated) → Preserves P (payment_handler texts body given)
  unfolding payment_handler
  payment_handler-Preserves body given =
      quiet->>= P _ _ (from_result-IsQuiet (parse_payment body)) λ cmd.
        try_catch-Preserves P _ _
          (returned-Preserves P _ _ (record_payment-Preserves texts P k.kept cmd given))
          (duplicate_is_recorded-Preserves P)

  submit_handler-Preserves :
      (body : SubmitInvoiceBody) (given : Generated) (req : Request)
      → Preserves P (submit_handler body given req)
  unfolding submit_handler
  submit_handler-Preserves body given req =
      quiet->>= P _ _ (from_result-IsQuiet (parse_submission body)) λ command_of.
        quiet->>= P _ _ (or_throw-IsQuiet req.user type_error) λ user.
          returned-Preserves P _ _
            (submit_invoice-Preserves texts P k.kept (command_of user.sub) user.sub given)

  after_guard-keeps :
      (scope : Scope) (handler : M (Response Invoice)) (lost : Bool) (w : World)
      (x : Outcome (Response Invoice) × Rows)
      → Preserves P handler
      → w.tx ≡ none
      → P w.committed
      → P (after_guard scope handler lost w x).1.committed
  after_guard-keeps scope handler lost w (passed_on, rows) q h p =
      async_handler-keeps P handler w q h p
  after_guard-keeps scope handler lost w (watched marks, rows) q h p =
      async_handler-keeps P handler w q h p
  after_guard-keeps scope handler lost w (replayed status body, rows) q h p = p
  after_guard-keeps scope handler lost w (Idempotency.replied reply, rows) q h p = p
  after_guard-keeps scope handler lost w (threw, rows) q h p = p

  pub guarded_submit-keeps :
      (body : SubmitInvoiceBody) (given : Generated) (course : Circumstances) (key : Option String)
      (s : Step) (w : World) (rows : Rows)
      → w.tx ≡ none
      → P w.committed
      → P (guarded_submit body given course key s w rows).1.committed
  unfolding guarded_submit
  guarded_submit-keeps body given course key (passed req) w rows h p =
      after_guard-keeps _ (submit_handler body given req) course.lost w _
        (submit_handler-Preserves body given req) h p
  guarded_submit-keeps body given course key (replied reply) w rows h p = p
