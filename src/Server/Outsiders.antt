-- ===== src/Server/Outsiders.antt =====
-- What requests without a token and without the bank's signature can do.
pub mod Requests
use vanguard_settlement_engi.Base.{
  ℕ, Bool, true, false, Option, none, some, List, [], ◌∷◌, refl, sym, ap, subst, ◌≡◌, ◌≢◌, ◌⊎◌, inl,
  inr, String, All, update_where, ◌∙◌, if◌then◌else◌,
}
use vanguard_settlement_engi.Domain.{
  JwtPayload, OrgRole, Invoice, VirtualAccount, LedgerEntry, Organisation, supplier, buyer,
  platform_admin, cancelled,
}
use vanguard_settlement_engi.Database.{Tables, OrganisationCredential, Generated}
use vanguard_settlement_engi.Database.Session.{World, M, request_on}
use vanguard_settlement_engi.Database.Hoare.{Holds, Holds-weaken}
use vanguard_settlement_engi.Database.Quiet.{from_result-IsQuiet}
use vanguard_settlement_engi.Database.Preserves.{Preserves, quiet-Preserves}
use vanguard_settlement_engi.Database.Preserves.Pool.{quiet->>=}
use vanguard_settlement_engi.Repositories.Invoices.{has_id}
use vanguard_settlement_engi.Invoice.Statements.{assessment_stmt}
use vanguard_settlement_engi.Risk.Types.{
  AssessInvoiceRiskCommand, RiskAssessmentResult, RiskDecision, approve, reject, manual_review,
}
use vanguard_settlement_engi.Risk.Records.{assessed_tables, decided_tables, assessment_stmt-Holds}
use vanguard_settlement_engi.System.Calls.{assess_and_record-Preserves}
use vanguard_settlement_engi.Api.Replies.{Reply}
use vanguard_settlement_engi.Api.Authenticate.{
  Verified, valid, Request, Step, passed, replied, authenticate, require_role, ◌then◌,
  require_role-authenticate,
}
use vanguard_settlement_engi.Api.Limits.{
  LimitReply, limit, api_limiter, login_limiter, registration_limiter, login_key,
}
use vanguard_settlement_engi.Api.WebhookAuth.{
  WebhookStep, accepted, refused, verify_webhook_signature,
}
use vanguard_settlement_engi.Api.Schemas.{parse_assessment}
use vanguard_settlement_engi.Api.Routes.{
  Response, reached, notified, or_empty, capture_raw_body, post_approve, post_request_financing,
  post_van, get_invoice, get_van, post_assess, post_payment, payment_handler,
}
use vanguard_settlement_engi.Api.Routes.Submission.{post_submit, guarded_submit}
use vanguard_settlement_engi.Api.Routes.Auth.{
  post_register, post_login, parse_register, parse_login,
}
use vanguard_settlement_engi.Api.Routes.Admin.{
  get_failed_jobs, post_retry, delete_job, admin_only, behind,
}
use vanguard_settlement_engi.Infra.FailedJobs.{Queues}
use vanguard_settlement_engi.Server.{
  Packages, HttpCall, Arrival, State, register_org, log_in, send_invoice, read_invoice,
  send_approval, ask_financing, open_van, notify_payment, read_account, ask_assessment, list_failed,
  retry_failed, discard_failed, route, behind_api_limiter, serve_all,
}
use vanguard_settlement_engi.Server.Cancelled.{
  OnlyCancels, EachSameOrCancelled-refl, assessment_stmt-OnlyCancels,
}
use vanguard_settlement_engi.Server.Rules.{
  async_handler-keeps, reached-keeps, behind_limiter-keeps, returned-Preserves,
}
use vanguard_settlement_engi.Server.Handlers.{
  get_invoice_history-IsQuiet, get_van_details-IsQuiet, register-Preserves, login-Preserves,
}

-- No token verifies, and no notification that arrives is signed.
abbrev pub IsUnsigned : {Q : Type 0} → Packages Q → HttpCall → Type 0
IsUnsigned p (notify_payment n given) =
    verify_webhook_signature p.hmac_hex false (capture_raw_body p.json_parse n).0 ≢ accepted
IsUnsigned p _ = Unit

pub record IsUntouched {Q : Type 0} (s s' : State Q) : Type 0 where
  pub tables : OnlyCancels s.tables s'.tables
  pub same_keys : s'.idempotency_keys ≡ s.idempotency_keys
  pub same_queues : s'.queues ≡ s.queues

module _ {Q : Type 0} (p : Packages Q)
    (no_token : (token : String) (user : JwtPayload) → p.verify token ≢ valid user) where
  -- A guarded route answers with the refusal of its middleware.
  pub refused_by :
      (allowed : List OrgRole) (req : Request)
      → (reply : Reply) × ((authenticate p.verify req then require_role allowed) ≡ replied reply)
  refused_by allowed req = go (authenticate p.verify req then require_role allowed) refl
    where
      go :
          (s : Step)
          → (authenticate p.verify req then require_role allowed) ≡ s
          → (reply : Reply) × ((authenticate p.verify req then require_role allowed)
              ≡ replied reply)
      go (replied reply) e = (reply, e)
      go (passed out) e =
          let (token, user, b, v, c, d) =
            (require_role-authenticate p.verify allowed req out).0 e in
          absurd (no_token token user v)

  reached_by :
      {A : Type 0} (allowed : List OrgRole) (req : Request) (handler : Request → M (Response A))
      (w : World)
      → (reached (authenticate p.verify req then require_role allowed) handler w).1 ≡ w
  reached_by allowed req handler w =
      let (reply, e) = refused_by allowed req in ap (λ s. (reached s handler w).1) e

  pub behind_by :
      {A : Type 0} (req : Request) (x : Response A × Queues Q) (qs : Queues Q)
      → (behind (admin_only p.verify req) x qs).1 ≡ qs
  behind_by req x qs =
      let (reply, e) = refused_by (platform_admin ∷ []) req in ap (λ s. (behind s x qs).1) e

  module _ (s : State Q) where
    -- A request that has changed the tables alone.
    pub on_tables :
        (s' : State Q) (t : Tables)
        → IsUntouched s s'
        → OnlyCancels s.tables t
        → IsUntouched s (record s' { tables = t })
    on_tables s' t h k = record { tables = k; same_keys = h.same_keys; same_queues = h.same_queues }

    pub refused_tables :
        {A : Type 0} (allowed : List OrgRole) (req : Request) (handler : Request → M (Response A))
        (w : World) (s' : State Q)
        → IsUntouched s s'
        → OnlyCancels s.tables w.committed
        → IsUntouched s (record s' {
          tables =
              (reached (authenticate p.verify req then require_role allowed) handler w).1.committed;
        })
    refused_tables allowed req handler w s' h k =
        on_tables s' _ h
          (subst (λ v. OnlyCancels s.tables v.committed) (sym (reached_by allowed req handler w)) k)

    pub access :
        (organisations : List Organisation) (credentials : List OrganisationCredential) (t : Tables)
        → OnlyCancels s.tables t
        → OnlyCancels s.tables
            (record t { organisations = organisations; organisation_credentials = credentials })
    access organisations credentials t h = record {
      invoices = h.invoices;
      virtual_accounts = h.virtual_accounts;
      ledger_entries = h.ledger_entries;
    }
