-- ===== src/Api/Routes/Submission.antt =====
-- POST /invoices of services/routes/invoice/invoice.router.ts: a submission behind the idempotency
-- guard, over the tables and the rows of `idempotency_keys`.
pub mod Once
use vanguard_settlement_engi.Base.{
  ℕ, String, Bool, true, false, Option, none, some, List, [], ◌∷◌, ◌≡◌, refl, ap, ◌∙◌, sym, arith,
  str_eq, if◌then◌else◌,
}
use vanguard_settlement_engi.Domain.{JwtPayload, Invoice, supplier}
use vanguard_settlement_engi.Database.{Generated}
use vanguard_settlement_engi.Database.Session.{World, M, ◌>>=◌, pure, from_result}
use vanguard_settlement_engi.Invoice.Service.{submit_invoice}
use vanguard_settlement_engi.Errors.{database, connection_failure}
use vanguard_settlement_engi.Api.ErrorHandler.{error_handler}
use vanguard_settlement_engi.Api.Replies.{Reply}
use vanguard_settlement_engi.Api.Authenticate.{
  Verified, Request, Step, passed, replied, authenticate, require_role, ◌then◌,
}
use vanguard_settlement_engi.Api.Idempotency.{
  KeyedRequest, IdempotencyRecord, Scope, Outcome, passed_on, watched, replayed, on_response, threw,
  Others, with_scope, with_user, with_key, idempotency_guard,
}
use vanguard_settlement_engi.Api.Idempotency
use vanguard_settlement_engi.Api.Schemas.{SubmitInvoiceBody, parse_submission}
use vanguard_settlement_engi.Api.Routes.{
  Response, success, already_recorded, refusal, async_handler, user_of,
}

-- The handler's response or the error handler's, a stored one, or one of a middleware.
pub data Answer : Type 0 where
  fresh : Response Invoice → Answer
  replay : ℕ → Option (Response Invoice) → Answer
  blocked : Reply → Answer

abbrev pub status_of : Response Invoice → ℕ
status_of (success status i) = status
status_of already_recorded = 200
status_of (refusal reply) = reply.status

abbrev pub Rows : Type 0
Rows = List (IdempotencyRecord (Response Invoice))

unfoldable pub submit_handler : SubmitInvoiceBody → Generated → Request → M (Response Invoice)
submit_handler body given req = do
  command_of ← from_result (parse_submission body)
  user ← user_of req
  invoice ← submit_invoice (command_of user.sub) user.sub given
  pure (success 201 invoice)

-- The request as the guard reads it: `req.path` is that below the router's mount point.
abbrev pub sub_of : Option JwtPayload → Option ℕ
sub_of none = none
sub_of (some user) = some user.sub

abbrev pub keyed : Option String → Request → KeyedRequest
keyed key req = record {
  is_post = true;
  idempotency_key = key;
  user_org = sub_of req.user;
  path = "/";
}

abbrev pub scope_for : Option String → Option ℕ → Scope
scope_for none user = record { key = ""; org_id = 0; path = "/" }
scope_for (some key) none = record { key = key; org_id = 0; path = "/" }
scope_for (some key) (some sub) = record { key = key; org_id = sub; path = "/" }

-- `next()` with the response watched: `status` of the response decides what is stored. The query that
-- stores it is not waited for; where it fails (`lost`), that is only logged.
abbrev pub recorded : Scope → Bool → Bool → Rows → Response Invoice × World → Answer × World × Rows
recorded scope marks lost rows (response, w) = (
  fresh response,
  w,
  if lost then rows else on_response marks scope (status_of response) response rows,
)

abbrev pub unrecorded : Rows → Response Invoice × World → Answer × World × Rows
unrecorded rows (response, w) = (fresh response, w, rows)

abbrev pub after_guard :
    Scope
    → M (Response Invoice)
    → Bool
    → World
    → Outcome (Response Invoice) × Rows
    → Answer × World × Rows
after_guard scope handler lost w (passed_on, rows) = unrecorded rows (async_handler handler w)
after_guard scope handler lost w (watched marks, rows) =
    recorded scope marks lost rows (async_handler handler w)
after_guard scope handler lost w (replayed status body, rows) = (replay status body, w, rows)
after_guard scope handler lost w (Idempotency.replied reply, rows) = (blocked reply, w, rows)
after_guard scope handler lost w (threw, rows) =
    (blocked (error_handler (database connection_failure)), w, rows)

-- What befalls the guard: what other requests do to the rows while it polls, which of its queries
-- fail, and whether that behind the response does.
pub record Circumstances : Type 0 where
  pub others : Others (Response Invoice)
  pub faults : List Bool
  pub lost : Bool

-- Behind `authenticate` and `requireRole('supplier')`.
unfoldable pub guarded_submit :
    SubmitInvoiceBody
    → Generated
    → Circumstances
    → Option String
    → Step
    → World
    → Rows
    → Answer × World × Rows
guarded_submit body given course key (replied reply) w rows = (blocked reply, w, rows)
guarded_submit body given course key (passed req) w rows =
    after_guard (scope_for key (sub_of req.user)) (submit_handler body given req) course.lost w
      (idempotency_guard (keyed key req) course.others (course.faults, rows))

unfoldable pub post_submit :
    (String → Verified)
    → SubmitInvoiceBody
    → Generated
    → Circumstances
    → Option String
    → Request
    → World
    → Rows
    → Answer × World × Rows
unfolding guarded_submit
post_submit verify body given course key req w rows =
    guarded_submit body given course key (authenticate verify req then require_role (supplier ∷ []))
      w rows
