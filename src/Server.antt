-- ===== src/Server.antt =====
-- services/app.ts: `buildApp`, that is which handler a request reaches, and what the process holds
-- between two requests. What `helmet` adds to a response and the request's log line are left out, and
-- the jobs that a request enqueues are not added to the queues.
pub mod Rules
pub mod Handlers
pub mod Consistency
pub mod Cancelled
pub mod Outsiders
use vanguard_settlement_engi.Base.{
  ℕ, String, Bool, true, false, Option, none, some, List, [], ◌∷◌, if◌then◌else◌,
}
use vanguard_settlement_engi.Domain.{JwtPayload}
use vanguard_settlement_engi.Database.{Tables, Generated}
use vanguard_settlement_engi.Database.Session.{World, request_on}
use vanguard_settlement_engi.Van.Service.{Texts}
use vanguard_settlement_engi.Infra.FailedJobs.{Bull, Queues}
use vanguard_settlement_engi.Api.Authenticate.{Verified, Request}
use vanguard_settlement_engi.Api.Schemas.{
  PaymentBody, CreateVanBody, AssessRiskBody, SubmitInvoiceBody,
}
use vanguard_settlement_engi.Api.Limits.{LimitReply, limit, api_limiter}
use vanguard_settlement_engi.Api.Routes.{
  Notification, post_approve, post_request_financing, post_van, get_invoice, get_van, post_assess,
  post_payment,
}
use vanguard_settlement_engi.Api.Routes.Submission.{Rows, Circumstances, post_submit}
use vanguard_settlement_engi.Api.Routes.Auth.{RegisterBody, LoginBody, post_register, post_login}
use vanguard_settlement_engi.Api.Routes.Health.{get_health}
use vanguard_settlement_engi.Api.Routes.Admin.{get_failed_jobs, post_retry, delete_job}

-- The packages and the configuration.
pub record Packages (Q : Type 0) : Type 0 where
  pub verify : String → Verified
  pub sign : JwtPayload → String
  pub hash : String → String
  pub compare : String → String → Bool
  pub is_email : String → Bool
  pub json_parse : List ℕ → Option PaymentBody
  pub hmac_hex : List ℕ → String
  pub texts : Texts
  pub bull : Bull Q

-- A request as its router reads it, with what the database and the process make for it.
pub data HttpCall : Type 0 where
  check_health : ℕ → HttpCall
  register_org : RegisterBody → Generated → HttpCall
  log_in : LoginBody → ℕ → HttpCall
  send_invoice : SubmitInvoiceBody → Generated → Circumstances → Option String → Request → HttpCall
  read_invoice : ℕ → Request → HttpCall
  send_approval : ℕ → Option String → Generated → Request → HttpCall
  ask_financing : ℕ → Generated → Request → HttpCall
  open_van : CreateVanBody → String → Generated → Request → HttpCall
  notify_payment : Notification → Generated → HttpCall
  read_account : ℕ → Request → HttpCall
  ask_assessment : AssessRiskBody → Generated → HttpCall
  list_failed : Request → HttpCall
  retry_failed : String → String → Request → HttpCall
  discard_failed : String → String → Request → HttpCall

-- From which address it comes, whether a key is over a limit when it comes, and which of its calls of
-- the database and of a queue fail.
pub record Arrival : Type 0 where
  pub ip : String
  pub is_over : ℕ → String → Bool
  pub faults : List Bool
  pub call : HttpCall

pub record State (Q : Type 0) : Type 0 where
  pub tables : Tables
  pub idempotency_keys : Rows
  pub queues : Queues Q

module _ {Q : Type 0} (p : Packages Q) where
  -- What a request leaves behind. Its answer is that of the route.
  unfoldable pub route : Arrival → HttpCall → World → State Q → State Q
  route a (check_health now) w s = record s { tables = (get_health now w).1.committed }
  route a (register_org body given) w s =
      let x = post_register false a.is_over p.is_email p.sign p.hash a.ip body given w in
      record s { tables = x.1.committed }
  route a (log_in body now) w s =
      let x = post_login false a.is_over p.is_email p.sign p.compare a.ip body now w in
      record s { tables = x.1.committed }
  route a (send_invoice body given course key req) w s =
      let x = post_submit p.verify body given course key req w s.idempotency_keys in
      record s { tables = x.1.committed; idempotency_keys = x.2 }
  route a (read_invoice id req) w s = record s {
    tables = (get_invoice p.verify id req w).1.committed;
  }
  route a (send_approval id signature given req) w s = record s {
    tables = (post_approve p.verify id signature given req w).1.committed;
  }
  route a (ask_financing id given req) w s = record s {
    tables = (post_request_financing p.verify id given req w).1.committed;
  }
  route a (open_van body number given req) w s = record s {
    tables = (post_van p.verify p.texts body number given req w).1.committed;
  }
  route a (notify_payment n given) w s = record s {
    tables = (post_payment p.json_parse p.hmac_hex p.texts n given w).1.committed;
  }
  route a (read_account id req) w s = record s { tables = (get_van p.verify id req w).1.committed }
  route a (ask_assessment body given) w s = record s {
    tables = (post_assess body given w).1.committed;
  }
  route a (list_failed req) w s = record s {
    queues = (get_failed_jobs p.bull p.verify req s.queues).1;
  }
  route a (retry_failed queue id req) w s = record s {
    queues = (post_retry p.bull p.verify queue id req s.queues).1;
  }
  route a (discard_failed queue id req) w s = record s {
    queues = (delete_job p.bull p.verify queue id req s.queues).1;
  }

  abbrev pub behind_api_limiter : Option LimitReply → State Q → State Q → State Q
  behind_api_limiter (some reply) limited routed = limited
  behind_api_limiter none limited routed = routed

  -- `app.use(apiLimiter)`, then the routers.
  unfoldable pub serve : Arrival → State Q → State Q
  unfolding limit
  serve a s =
      behind_api_limiter (limit api_limiter false a.is_over a.ip) s
        (route a a.call (request_on s.tables a.faults) s)

  unfoldable pub serve_all : List Arrival → State Q → State Q
  unfolding serve
  serve_all [] s = s
  serve_all (a ∷ later) s = serve_all later (serve a s)
