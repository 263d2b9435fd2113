-- ===== src/Api/WebhookAuth.antt =====
-- services/middleware/webhook-auth.ts: the signature of a bank's notification. The hexadecimal HMAC of
-- the body under the secret, which Node's `crypto` computes, is an argument.
use Prim.Native.Char.{code}
use vanguard_settlement_engi.Base.{
  ℕ, ◌+◌, ◌*◌, ◌-◌, String, Bool, true, false, not, ◌&&◌, Option, none, some, List, [], ◌∷◌, length,
  ◌==◌, leb, str_eq, eq_iff, if◌then◌else◌, ◌≡◌, ◌≢◌, ◌↔◌, refl, ap, arith,
}
use vanguard_settlement_engi.Api.Replies.{
  ErrorCode, Shown, Reply, fixed, failed_expected, missing_webhook_signature,
  invalid_webhook_signature, internal_error,
}

-- The value of a hexadecimal digit.
abbrev pub hex_value : ℕ → Option ℕ
hex_value c =
    if leb 48 c && leb c 57
    then some (c - 48)
    else if leb 97 c && leb c 102
    then some (c - 87)
    else if leb 65 c && leb c 70
    then some (c - 55)
    else none

abbrev pub cons_byte : Option ℕ → Option ℕ → List ℕ → List ℕ
cons_byte (some high) (some low) bytes = (16 * high + low) ∷ bytes
cons_byte none _ bytes = []
cons_byte (some high) none bytes = []

-- `Buffer.from(text, 'hex')`: it ends before the first pair that is not two digits.
abbrev pub from_hex : String → List ℕ
from_hex String.[] = []
from_hex (String.◌∷◌ c String.[]) = []
from_hex (String.◌∷◌ c (String.◌∷◌ d s)) =
    cons_byte (hex_value (code c)) (hex_value (code d)) (from_hex s)

-- `crypto.timingSafeEqual` on buffers of one length.
abbrev pub same_bytes : List ℕ → List ℕ → Bool
same_bytes [] [] = true
same_bytes (a ∷ left) (b ∷ right) = a == b && same_bytes left right
same_bytes _ _ = false

pub record WebhookRequest : Type 0 where
  pub signature : Option String
  pub raw_body : Option (List ℕ)

pub data WebhookStep : Type 0 where
  accepted : WebhookStep
  refused : Reply → WebhookStep

abbrev pub refuse : ℕ → ErrorCode → Shown → WebhookStep
refuse status code message =
    refused (record { status = status; code = code; message = message; details = false })

module _ (hmac_hex : List ℕ → String) where
  abbrev pub compare_signatures : String → String → WebhookStep
  compare_signatures signature expected =
      if not (length (from_hex signature) == length (from_hex expected))
      then refuse 401 invalid_webhook_signature (fixed "Webhook signature verification failed")
      else if not (same_bytes (from_hex signature) (from_hex expected))
      then refuse 401 invalid_webhook_signature (failed_expected expected)
      else accepted

  abbrev pub with_raw_body : String → Option (List ℕ) → WebhookStep
  with_raw_body signature none = refuse 500 internal_error (fixed "Webhook processing error")
  with_raw_body signature (some raw_body) = compare_signatures signature (hmac_hex raw_body)

  abbrev pub with_signature : Option String → Option (List ℕ) → WebhookStep
  with_signature none raw_body =
      refuse 401 missing_webhook_signature (fixed "X-Webhook-Signature header is required")
  with_signature (some signature) raw_body =
      if str_eq signature ""
      then refuse 401 missing_webhook_signature (fixed "X-Webhook-Signature header is required")
      else with_raw_body signature raw_body

  -- `is_test` is `env.NODE_ENV === 'test'`.
  unfoldable pub verify_webhook_signature : Bool → WebhookRequest → WebhookStep
  verify_webhook_signature is_test req =
      if is_test then accepted else with_signature req.signature req.raw_body

same_bytes_iff : (a b : List ℕ) → (same_bytes a b ≡ true) ↔ (a ≡ b)
same_bytes_iff [] [] = ((λ _. refl), (λ _. refl))
same_bytes_iff [] (b ∷ bs) = ((λ h. cc), (λ h. cc))
same_bytes_iff (a ∷ bs) [] = ((λ h. cc), (λ h. cc))
same_bytes_iff (a ∷ left) (b ∷ right) =
    let (to, from) = same_bytes_iff left right in
    ((λ h. ground (arith, to)), (λ h. ground (arith, from)))

module _ (hmac_hex : List ℕ → String) where
  compare_iff :
      (signature expected : String)
      → (compare_signatures hmac_hex signature expected ≡ accepted)
        ↔ (from_hex signature ≡ from_hex expected)
  compare_iff signature expected =
      let (to, from) = same_bytes_iff (from_hex signature) (from_hex expected) in
      ((λ h. ground (arith, to)), (λ h. ground (arith, from h, h)))

  expected_shown :
      (signature expected other : String) (reply : Reply)
      → compare_signatures hmac_hex signature expected ≡ refused reply
      → reply.message ≡ failed_expected other
      → other ≡ expected
  expected_shown signature expected other reply h shown = ground arith

  -- Outside of tests a notification is accepted exactly where it has a signature and its body was
  -- captured, and the signature stands for the bytes of the body's HMAC.
  pub verify_webhook_signature-accepts :
      (req : WebhookRequest)
      → (verify_webhook_signature hmac_hex false req ≡ accepted) ↔ (
          (signature : String) × (raw_body : List ℕ) × (req.signature ≡ some signature)
          × (signature ≢ "")
          × (req.raw_body ≡ some raw_body)
          × (from_hex signature ≡ from_hex (hmac_hex raw_body)))
  unfolding verify_webhook_signature
  verify_webhook_signature-accepts req = (to req.signature req.raw_body refl refl, from)
    where
      to :
          (signature : Option String) (raw_body : Option (List ℕ))
          → req.signature ≡ signature
          → req.raw_body ≡ raw_body
          → with_signature hmac_hex signature raw_body ≡ accepted
          → (signature : String) × (raw_body : List ℕ) × (req.signature ≡ some signature)
            × (signature ≢ "")
            × (req.raw_body ≡ some raw_body)
            × (from_hex signature ≡ from_hex (hmac_hex raw_body))
      to none raw_body e q h = cc
      to (some signature) none e q h = absurd (ground arith)
      to (some signature) (some raw_body) e q h = (
        signature,
        raw_body,
        e,
        (λ empty. ground (arith, eq_iff signature "")),
        q,
        (compare_iff signature (hmac_hex raw_body)).0 (ground arith),
      )

      from :
          ((signature : String) × (raw_body : List ℕ) × (req.signature ≡ some signature)
            × (signature ≢ "")
            × (req.raw_body ≡ some raw_body)
            × (from_hex signature ≡ from_hex (hmac_hex raw_body)))
          → verify_webhook_signature hmac_hex false req ≡ accepted
      from (signature, raw_body, e, some_text, q, same) = rw e (
          rw q (
            ground
              (arith, eq_iff signature "", (compare_iff signature (hmac_hex raw_body)).1 same)))

  -- A refusal that names the expected signature hands it out: the same body with it is accepted.
  pub verify_webhook_signature-leaks :
      (req : WebhookRequest) (reply : Reply) (expected : String)
      → verify_webhook_signature hmac_hex false req ≡ refused reply
      → reply.message ≡ failed_expected expected
      → expected ≢ ""
      → verify_webhook_signature hmac_hex false (record req { signature = some expected })
        ≡ accepted
  unfolding verify_webhook_signature
  verify_webhook_signature-leaks req reply expected h shown some_text =
      go req.signature req.raw_body h
    where
      go :
          (signature : Option String) (raw_body : Option (List ℕ))
          → with_signature hmac_hex signature raw_body ≡ refused reply
          → with_signature hmac_hex (some expected) raw_body ≡ accepted
      go none raw_body h = absurd (ground arith)
      go (some signature) none h = absurd (ground arith)
      go (some signature) (some raw_body) h =
          let is_expected : expected ≡ hmac_hex raw_body =
            expected_shown signature (hmac_hex raw_body) expected reply (ground arith) shown in
          ground (
            arith,
            eq_iff expected "",
            (compare_iff expected (hmac_hex raw_body)).1 (ap from_hex is_expected),
          )
