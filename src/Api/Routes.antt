-- ===== src/Api/Routes.antt =====
-- services/routes/{invoice/invoice,van/van,risk/risk}.router.ts: the routes from the request to the
-- response, POST /invoices and the other routers in children, and what `captureRawBody` of
-- services/middleware/webhook-auth.ts leaves of a notification outside of tests. `JSON.parse` on the
-- text of the bytes is an argument.
pub mod Answers
pub mod Safety
pub mod Accounts
pub mod Submission
pub mod Auth
pub mod Admin
pub mod Health
use vanguard_settlement_engi.Base.{ℕ, String, Bool, false, Option, none, some, List, [], ◌∷◌}
use vanguard_settlement_engi.Domain.{
  JwtPayload, Invoice, VirtualAccount, supplier, buyer, platform_admin,
}
use vanguard_settlement_engi.Errors.{Thrown, Result, ok, err, duplicate_payment, type_error}
use vanguard_settlement_engi.Database.{Generated}
use vanguard_settlement_engi.Database.Session.{
  World, M, ◌>>=◌, pure, or_throw, from_result, throw, try_catch,
}
use vanguard_settlement_engi.Invoice.Service.{
  InvoiceWithHistory, approve_invoice, request_financing, get_invoice_history,
}
use vanguard_settlement_engi.Risk.Types.{
  RiskDecision, approve, reject, manual_review, RiskAssessmentResult,
}
use vanguard_settlement_engi.Risk.Service.{assess_and_record}
use vanguard_settlement_engi.Van.Service.{
  Texts, VanWithLedger, create_van, record_payment, get_van_details,
}
use vanguard_settlement_engi.Api.Replies.{Reply}
use vanguard_settlement_engi.Api.ErrorHandler.{error_handler}
use vanguard_settlement_engi.Api.Authenticate.{
  Verified, Request, Step, passed, replied, authenticate, require_role, ◌then◌,
}
use vanguard_settlement_engi.Api.WebhookAuth.{
  WebhookRequest, WebhookStep, accepted, refused, verify_webhook_signature,
}
use vanguard_settlement_engi.Api.Schemas.{
  PaymentBody, empty_body, parse_approval, parse_payment, CreateVanBody, parse_van, AssessRiskBody,
  parse_assessment,
}

-- `res.status(status).json({ success: true, data })`, the answer to a payment that is there already,
-- or an error.
pub data Response (A : Type 0) : Type 0 where
  success : ℕ → A → Response A
  already_recorded : Response A
  refusal : Reply → Response A

module _ {A : Type 0} where
  abbrev pub answered : Result (Response A) × World → Response A × World
  answered (ok response, w) = (response, w)
  answered (err e, w) = (refusal (error_handler e), w)

  -- `asyncHandler`, with the error handler behind it.
  abbrev pub async_handler : M (Response A) → World → Response A × World
  async_handler m w = answered (m w)

  -- A handler behind its middleware.
  abbrev pub reached : Step → (Request → M (Response A)) → World → Response A × World
  reached (passed req) handler w = async_handler (handler req) w
  reached (replied reply) handler w = (refusal reply, w)

-- `req.user!`, of which a field is read.
abbrev pub user_of : Request → M JwtPayload
user_of req = or_throw req.user type_error

module _ (verify : String → Verified) where
  -- POST /invoices/:id/approve
  unfoldable pub post_approve :
      ℕ → Option String → Generated → Request → World → Response Invoice × World
  post_approve id buyer_signature given req =
      reached (authenticate verify req then require_role (buyer ∷ [])) (λ req'. do
        signature ← from_result (parse_approval buyer_signature)
        user ← user_of req'
        invoice ←
            approve_invoice
              (record { invoice_id = id; buyer_id = user.sub; buyer_signature = signature })
              user.sub given
        pure (success 200 invoice))

  -- POST /invoices/:id/request-financing
  unfoldable pub post_request_financing : ℕ → Generated → Request → World → Response Invoice × World
  post_request_financing id given req =
      reached (authenticate verify req then require_role (supplier ∷ [])) (λ req'. do
        user ← user_of req'
        invoice ←
            request_financing (record { invoice_id = id; supplier_id = user.sub }) user.sub given
        pure (success 200 invoice))

  -- POST /vans; the account number that the service makes is an argument.
  unfoldable pub post_van :
      Texts → CreateVanBody → String → Generated → Request → World → Response VirtualAccount × World
  post_van texts body account_number given req =
      reached (authenticate verify req then require_role (supplier ∷ platform_admin ∷ [])) (λ req'.
        do
          cmd ← from_result (parse_van body)
          van ← create_van texts cmd account_number given
          pure (success 201 van))

  -- GET /invoices/:id
  unfoldable pub get_invoice : ℕ → Request → World → Response InvoiceWithHistory × World
  get_invoice id req =
      reached (authenticate verify req)
        (λ req'. do result ← get_invoice_history id; pure (success 200 result))

  -- GET /vans/:invoiceId
  unfoldable pub get_van : ℕ → Request → World → Response VanWithLedger × World
  get_van invoice_id req =
      reached (authenticate verify req)
        (λ req'. do result ← get_van_details invoice_id; pure (success 200 result))

abbrev pub status_code : RiskDecision → ℕ
status_code approve = 200
status_code manual_review = 202
status_code reject = 422

-- POST /risk/assess, which has no middleware; the actor is the invoice's identifier.
unfoldable pub post_assess :
    AssessRiskBody → Generated → World → Response RiskAssessmentResult × World
post_assess body given = async_handler (do
  cmd ← from_result (parse_assessment body)
  result ← assess_and_record cmd cmd.invoice_id given
  pure (success (status_code result.decision) result))

-- A notification with the header `X-Webhook-Signature`, as it arrives.
pub record Notification : Type 0 where
  pub signature : Option String
  pub bytes : List ℕ

abbrev pub or_empty : Option PaymentBody → PaymentBody
or_empty none = empty_body
or_empty (some body) = body

-- `req.rawBody` and `req.body`.
unfoldable pub capture_raw_body :
    (List ℕ → Option PaymentBody) → Notification → WebhookRequest × PaymentBody
capture_raw_body json_parse n =
    (record { signature = n.signature; raw_body = some n.bytes }, or_empty (json_parse n.bytes))

-- The `catch` around `recordPayment`.
abbrev pub duplicate_is_recorded : Thrown → M (Response VanWithLedger)
duplicate_is_recorded (duplicate_payment key) = pure already_recorded
duplicate_is_recorded e = throw e

abbrev pub notified :
    WebhookStep → M (Response VanWithLedger) → World → Response VanWithLedger × World
notified accepted handler w = async_handler handler w
notified (refused reply) handler w = (refusal reply, w)

module _ (texts : Texts) where
  -- Behind the middleware.
  unfoldable pub payment_handler : PaymentBody → Generated → M (Response VanWithLedger)
  payment_handler body given = do
    cmd ← from_result (parse_payment body)
    try_catch (record_payment texts cmd given >>= λ result. pure (success 200 result))
        duplicate_is_recorded

module _ (json_parse : List ℕ → Option PaymentBody) (hmac_hex : List ℕ → String)
    (texts : Texts) where
  -- POST /vans/webhook/payment
  unfoldable pub post_payment : Notification → Generated → World → Response VanWithLedger × World
  unfolding capture_raw_body
  post_payment n given =
      let (req, body) = capture_raw_body json_parse n in
      notified (verify_webhook_signature hmac_hex false req) (payment_handler texts body given)
