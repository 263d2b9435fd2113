-- ===== src/Server/Consistency.antt =====
-- Requests keep what the services' calls keep.
use vanguard_settlement_engi.Base.{false, Option, none, some, List, [], ◌∷◌, refl, ◌≡◌, subst, sym}
use vanguard_settlement_engi.Domain.{supplier, buyer, platform_admin}
use vanguard_settlement_engi.Database.{Tables}
use vanguard_settlement_engi.Database.Session.{World, request_on}
use vanguard_settlement_engi.Database.Quiet.{from_result-IsQuiet, or_throw-IsQuiet}
use vanguard_settlement_engi.Database.Preserves.{quiet-Preserves}
use vanguard_settlement_engi.Database.Preserves.Pool.{quiet->>=}
use vanguard_settlement_engi.Errors.{type_error}
use vanguard_settlement_engi.System.{IsConsistent}
use vanguard_settlement_engi.System.Calls.{
  approve_invoice-Preserves, request_financing-Preserves, assess_and_record-Preserves,
  create_van-Preserves,
}
use vanguard_settlement_engi.System.Run.{transactions-Keep}
use vanguard_settlement_engi.Api.Authenticate.{authenticate, require_role, ◌then◌}
use vanguard_settlement_engi.Api.Limits.{
  LimitReply, limit, api_limiter, login_limiter, registration_limiter, login_key,
}
use vanguard_settlement_engi.Api.WebhookAuth.{verify_webhook_signature}
use vanguard_settlement_engi.Api.Schemas.{parse_approval, parse_van, parse_assessment}
use vanguard_settlement_engi.Api.Routes.{
  or_empty, post_approve, post_request_financing, post_van, get_invoice, get_van, post_assess,
  post_payment, capture_raw_body,
}
use vanguard_settlement_engi.Api.Routes.Health.{get_health_iff}
use vanguard_settlement_engi.Api.Routes.Submission.{post_submit}
use vanguard_settlement_engi.Api.Routes.Auth.{
  post_register, post_login, parse_register, parse_login,
}
use vanguard_settlement_engi.Server.{
  Packages, HttpCall, Arrival, State, check_health, register_org, log_in, send_invoice,
  read_invoice, send_approval, ask_financing, open_van, notify_payment, read_account,
  ask_assessment, list_failed, retry_failed, discard_failed, route, behind_api_limiter, serve_all,
}
use vanguard_settlement_engi.Server.Rules.{
  async_handler-keeps, reached-keeps, notified-keeps, behind_limiter-keeps, returned-Preserves,
}
use vanguard_settlement_engi.Server.Handlers.{
  IsKeptByAll, get_invoice_history-IsQuiet, get_van_details-IsQuiet, register-Preserves,
  login-Preserves, payment_handler-Preserves, guarded_submit-keeps,
}

module _ {Q : Type 0} (p : Packages Q) where
  module _ (P : Tables → Type 0) (k : IsKeptByAll p.texts P) where
    route-keeps :
        (a : Arrival) (call : HttpCall) (w : World) (s : State Q)
        → w.tx ≡ none
        → P w.committed
        → P s.tables
        → P (route p a call w s).tables
    unfolding route post_register post_login post_submit get_invoice get_van post_approve
        post_request_financing post_van post_payment capture_raw_body post_assess
    route-keeps a (check_health now) w s h c t = subst P (sym (get_health_iff now w h).1) c
    route-keeps a (register_org body given) w s h c t =
        behind_limiter-keeps P (limit registration_limiter false a.is_over a.ip) _ w
          (quiet->>= P _ _ (from_result-IsQuiet (parse_register p.is_email body)) λ input.
            returned-Preserves P _ _
              (register-Preserves P k.access p.sign input (p.hash input.password) given))
          h c
    route-keeps a (log_in body now) w s h c t =
        behind_limiter-keeps P (limit login_limiter false a.is_over (login_key a.ip body.email)) _ w
          (quiet->>= P _ _ (from_result-IsQuiet (parse_login p.is_email body)) λ input.
            returned-Preserves P _ _
              (login-Preserves P k.access p.sign p.compare input.0 input.1 now))
          h c
    route-keeps a (send_invoice body given course key req) w s h c t =
        guarded_submit-keeps p.texts P k body given course key
          (authenticate p.verify req then require_role (supplier ∷ [])) w s.idempotency_keys h c
    route-keeps a (read_invoice id req) w s h c t =
        reached-keeps P (authenticate p.verify req) _ w
          (λ _. returned-Preserves P _ _ (quiet-Preserves P _ (get_invoice_history-IsQuiet id))) h c
    route-keeps a (send_approval id signature given req) w s h c t =
        reached-keeps P (authenticate p.verify req then require_role (buyer ∷ [])) _ w
          (λ req'. quiet->>= P _ _ (from_result-IsQuiet (parse_approval signature)) λ text.
            quiet->>= P _ _ (or_throw-IsQuiet req'.user type_error) λ user.
              returned-Preserves P _ _
                (approve_invoice-Preserves p.texts P k.kept _ user.sub given))
          h c
    route-keeps a (ask_financing id given req) w s h c t =
        reached-keeps P (authenticate p.verify req then require_role (supplier ∷ [])) _ w
          (λ req'. quiet->>= P _ _ (or_throw-IsQuiet req'.user type_error) λ user.
            returned-Preserves P _ _
              (request_financing-Preserves p.texts P k.kept _ user.sub given))
          h c
    route-keeps a (open_van body number given req) w s h c t =
        reached-keeps P
          (authenticate p.verify req then require_role (supplier ∷ platform_admin ∷ [])) _ w
          (λ _. quiet->>= P _ _ (from_result-IsQuiet (parse_van body)) λ cmd.
            returned-Preserves P _ _ (create_van-Preserves p.texts P k.kept cmd number given))
          h c
    route-keeps a (notify_payment n given) w s h c t =
        notified-keeps P
          (verify_webhook_signature p.hmac_hex false (capture_raw_body p.json_parse n).0) _ w
          (payment_handler-Preserves p.texts P k (or_empty (p.json_parse n.bytes)) given) h c
    route-keeps a (read_account id req) w s h c t =
        reached-keeps P (authenticate p.verify req) _ w
          (λ _. returned-Preserves P _ _ (quiet-Preserves P _ (get_van_details-IsQuiet id))) h c
    route-keeps a (ask_assessment body given) w s h c t =
        async_handler-keeps P _ w
          (quiet->>= P _ _ (from_result-IsQuiet (parse_assessment body)) λ cmd.
            returned-Preserves P _ _
              (assess_and_record-Preserves P k.kept.assessment_kept cmd cmd.invoice_id given))
          h c
    route-keeps a (list_failed req) w s h c t = t
    route-keeps a (retry_failed queue id req) w s h c t = t
    route-keeps a (discard_failed queue id req) w s h c t = t

    limited-keeps :
        (o : Option LimitReply) (s s' : State Q)
        → P s.tables
        → P s'.tables
        → P (behind_api_limiter p o s s').tables
    limited-keeps (some reply) s s' h h' = h
    limited-keeps none s s' h h' = h'

    pub serve_all-keeps :
        (arrivals : List Arrival) (s : State Q) → P s.tables → P (serve_all p arrivals s).tables
    unfolding serve_all
    serve_all-keeps [] s h = h
    serve_all-keeps (a ∷ later) s h = serve_all-keeps later _ (
        limited-keeps (limit api_limiter false a.is_over a.ip) s _ h
          (route-keeps a a.call (request_on s.tables a.faults) s refl h h))

  IsConsistent-IsKept : IsKeptByAll p.texts IsConsistent
  IsConsistent-IsKept = record {
    kept = transactions-Keep p.texts;
    access = λ organisations credentials t h. record {
      balanced = record {
        keys_distinct = h.balanced.keys_distinct;
        ids_distinct = h.balanced.ids_distinct;
        entries_known = h.balanced.entries_known;
        received_is_credits = h.balanced.received_is_credits;
        statuses_right = h.balanced.statuses_right;
      };
      replayed = record {
        events_known = h.replayed.events_known;
        status_is_replay = h.replayed.status_is_replay;
      };
    };
  }

  -- From consistent tables, any requests to the server, with any bodies, tokens and signatures,
  -- whatever limits they meet and whatever calls fail in them, lead to consistent tables.
  pub serve_all-IsConsistent :
      (arrivals : List Arrival) (s : State Q)
      → IsConsistent s.tables
      → IsConsistent (serve_all p arrivals s).tables
  serve_all-IsConsistent = serve_all-keeps IsConsistent IsConsistent-IsKept
