-- ===== src/Api/Routes/Safety.antt =====
-- Who moves an invoice, and which notification records a payment.
use vanguard_settlement_engi.Base.{
  ℕ, String, false, Option, none, some, List, [], ◌∷◌, ◌≡◌, ◌≢◌, ◌⊎◌, inl, inr, refl, arith,
}
use vanguard_settlement_engi.Domain.{JwtPayload, Invoice, VirtualAccount, supplier, buyer}
use vanguard_settlement_engi.Errors.{Thrown, Result, ok, err, duplicate_payment}
use vanguard_settlement_engi.Database.{Tables, Generated}
use vanguard_settlement_engi.Database.Session.{World, ◌>>=◌, pure, from_result, try_catch}
use vanguard_settlement_engi.Database.Guards.{Wrote}
use vanguard_settlement_engi.Invoice.Service.{
  ApproveInvoiceCommand, RequestFinancingCommand, approve_invoice,
}
use vanguard_settlement_engi.Invoice.Requests.{
  Approves, Requests, approve_invoice-Approves, request_financing-Requests,
}
use vanguard_settlement_engi.Van.Service.{
  Texts, VanWithLedger, RecordPaymentCommand, record_payment,
}
use vanguard_settlement_engi.Van.Payments.{Accepted, Paid, record_payment-Paid}
use vanguard_settlement_engi.Api.Authenticate.{Verified, Request}
use vanguard_settlement_engi.Api.WebhookAuth.{
  WebhookStep, accepted, refused, from_hex, verify_webhook_signature,
  verify_webhook_signature-accepts,
}
use vanguard_settlement_engi.Api.Schemas.{PaymentBody, parse_approval, parse_payment}
use vanguard_settlement_engi.Api.Routes.{
  success, answered, async_handler, user_of, post_approve, post_request_financing, Notification,
  or_empty, capture_raw_body, duplicate_is_recorded, notified, payment_handler, post_payment,
}
use vanguard_settlement_engi.Api.Routes.Answers.{
  Answered, IsFrom, IsFrom-sole, async_handler-Answered, reached-Answered,
}

module _ (verify : String → Verified) (id : ℕ) (given : Generated) (req : Request) where
  abbrev pub ApprovesOverHttp : Option String → Tables → Tables → Type 0
  ApprovesOverHttp buyer_signature t t' =
      (user : JwtPayload) × IsFrom verify req buyer user
      × ((signature : String) × (parse_approval buyer_signature ≡ ok signature)
          × Approves (record { invoice_id = id; buyer_id = user.sub; buyer_signature = signature })
              user.sub given t t')

  abbrev pub RequestsOverHttp : Tables → Tables → Type 0
  RequestsOverHttp t t' =
      (user : JwtPayload) × IsFrom verify req supplier user
      × Requests (record { invoice_id = id; supplier_id = user.sub }) user.sub given t t'

  module _ (w : World) where
    -- Whatever is sent and whatever fails, an approval over HTTP answers 200 only where it came with a
    -- Bearer token of a buyer and a body with a signature, and checked and wrote what an approval of
    -- that buyer does. With any other answer it did the same or left the tables as they were.
    pub post_approve-Answered :
        (buyer_signature : Option String)
        → w.tx ≡ none
        → Answered
            (λ _. 200)
            (ApprovesOverHttp buyer_signature)
            w
            (post_approve verify id buyer_signature given req w)
    unfolding post_approve
    post_approve-Answered buyer_signature closed =
        reached-Answered verify (buyer ∷ []) req (λ _. 200) _ (ApprovesOverHttp buyer_signature) w
          λ user from.
            go user (IsFrom-sole verify req buyer user from) (parse_approval buyer_signature) refl
      where
        go :
            (user : JwtPayload) (from : IsFrom verify req buyer user) (r : Result String)
            → parse_approval buyer_signature ≡ r
            → Answered {A = Invoice}
                (λ _. 200)
                (ApprovesOverHttp buyer_signature)
                w
                (answered (
                  (from_result r >>= λ signature.
                  user_of (record req { user = some user }) >>= λ user.
                  approve_invoice
                    (record { invoice_id = id; buyer_id = user.sub; buyer_signature = signature })
                    user.sub
                    given
                  >>= λ invoice. pure (success 200 invoice))
                    w))
        go user from (err e) q = inl refl
        go user from (ok signature) q =
            let cmd : ApproveInvoiceCommand = record {
              invoice_id = id;
              buyer_id = user.sub;
              buyer_signature = signature;
            } in
            async_handler-Answered (λ _. 200) (Approves cmd user.sub given)
              (ApprovesOverHttp buyer_signature) w
              (λ t t' approves. (user, from, (signature, q, approves))) _
              (approve_invoice-Approves cmd user.sub given w closed)

    -- Whatever is sent and whatever fails, a request for financing over HTTP answers 200 only where it
    -- came with a Bearer token of a supplier, and checked and wrote what a request of that supplier
    -- does. With any other answer it did the same or left the tables as they were.
    pub post_request_financing-Answered :
        w.tx ≡ none
        → Answered (λ _. 200) RequestsOverHttp w (post_request_financing verify id given req w)
    unfolding post_request_financing
    post_request_financing-Answered closed =
        reached-Answered verify (supplier ∷ []) req (λ _. 200) _ RequestsOverHttp w
          λ user from.
            let cmd : RequestFinancingCommand = record {
              invoice_id = id;
              supplier_id = user.sub;
            } in
            async_handler-Answered (λ _. 200) (Requests cmd user.sub given) RequestsOverHttp w
              (λ t t' requests. (user, IsFrom-sole verify req supplier user from, requests)) _
              (request_financing-Requests cmd user.sub given w closed)

module _ (json_parse : List ℕ → Option PaymentBody) (hmac_hex : List ℕ → String) (texts : Texts)
    (n : Notification) (given : Generated) where
  abbrev pub IsSigned : Type 0
  IsSigned =
      (signature : String) × (n.signature ≡ some signature)
      × (signature ≢ "")
      × (from_hex signature ≡ from_hex (hmac_hex n.bytes))

  -- The notification is signed, its body is a command, and the payment is that command's.
  abbrev pub PaysOverHttp : Tables → Tables → Type 0
  PaysOverHttp t t' =
      IsSigned
      × ((cmd : RecordPaymentCommand) × (parse_payment (or_empty (json_parse n.bytes)) ≡ ok cmd)
          × ((van : VirtualAccount) × Accepted texts cmd given van t
              × Paid texts cmd given van t t'))

  module _ (w : World) where
    duplicate_is_recorded-Answered :
        (e : Thrown) (v : World)
        → (v.committed ≡ w.committed) ⊎ PaysOverHttp w.committed v.committed
        → Answered (λ _. 200) PaysOverHttp w (answered (duplicate_is_recorded e v))
    duplicate_is_recorded-Answered (duplicate_payment key) v h = h
    duplicate_is_recorded-Answered _ v h = h

    recorded :
        (Q : Tables → Tables → Type 0)
        → ((t t' : Tables) → Q t t' → PaysOverHttp t t')
        → (x : Result VanWithLedger × World) → Wrote Q w x
        → Answered
            (λ _. 200)
            PaysOverHttp
            w
            (answered (
              try_catch ((λ _. x) >>= λ result. pure (success 200 result)) duplicate_is_recorded w))
    recorded Q pays (ok a, v) (h, q) = (refl, pays _ _ q)
    recorded Q pays (err e, v) (h, inl same) = duplicate_is_recorded-Answered e v (inl same)
    recorded Q pays (err e, v) (h, inr q) = duplicate_is_recorded-Answered e v (inr (pays _ _ q))

    payment_handler-Answered :
        IsSigned
        → w.tx ≡ none
        → Answered
            (λ _. 200)
            PaysOverHttp
            w
            (async_handler (payment_handler texts (or_empty (json_parse n.bytes)) given) w)
    unfolding payment_handler
    payment_handler-Answered signed closed = go (parse_payment (or_empty (json_parse n.bytes))) refl
      where
        go :
            (r : Result RecordPaymentCommand)
            → parse_payment (or_empty (json_parse n.bytes)) ≡ r
            → Answered
                (λ _. 200)
                PaysOverHttp
                w
                (answered (
                  (from_result r >>= λ cmd.
                  try_catch
                    (record_payment texts cmd given >>= λ result. pure (success 200 result))
                    duplicate_is_recorded)
                    w))
        go (err e) q = inl refl
        go (ok cmd) q =
            recorded
              (λ t t'.
                (van : VirtualAccount) × Accepted texts cmd given van t
                × Paid texts cmd given van t t')
              (λ t t' paid. (signed, (cmd, q, paid))) _
              (record_payment-Paid texts cmd given w closed)

    -- Whatever arrives and whatever fails, the webhook answers 200 with an account only where the
    -- signature stands for the HMAC of the bytes that arrived and their JSON is a payment, and then it
    -- checked and wrote what that payment does. With any other answer, that the payment is recorded
    -- already included, it did the same or left the tables as they were.
    pub post_payment-Answered :
        w.tx ≡ none
        → Answered (λ _. 200) PaysOverHttp w (post_payment json_parse hmac_hex texts n given w)
    unfolding post_payment capture_raw_body
    post_payment-Answered closed =
        go (verify_webhook_signature hmac_hex false (capture_raw_body json_parse n).0) refl
      where
        go :
            (s : WebhookStep)
            → verify_webhook_signature hmac_hex false (capture_raw_body json_parse n).0 ≡ s
            → Answered
                (λ _. 200)
                PaysOverHttp
                w
                (notified s (payment_handler texts (or_empty (json_parse n.bytes)) given) w)
        go (refused reply) e = inl refl
        go accepted e =
            let (signature, raw, a, b, c, d) =
              (verify_webhook_signature-accepts hmac_hex (capture_raw_body json_parse n).0).0 e in
            payment_handler-Answered (signature, a, b, ground (arith, d, c)) closed
