-- ===== src/Api/Limits.antt =====
-- services/middleware/rate-limiter.ts: what the three limiters are configured with. The package
-- `express-rate-limit`, which counts the requests with a key in each window, is not part of the
-- repository: whether a key is over a limit is an argument, and so is the address that the package's
-- `ipKeyGenerator` gives.
use Prim.Native.String
use vanguard_settlement_engi.Base.{
  ℕ, String, Bool, true, false, Option, none, some, ◌≡◌, ◌↔◌, ap, ◌∙◌, sym, trim, to_lower, str_eq,
  if◌then◌else◌,
}
use text.Mathlib.TextLemmas.{append_cancel_right}

pub data LimitCode : Type 0 where
  too_many_login_attempts too_many_registration_attempts rate_limit_exceeded : LimitCode

-- The numbers are milliseconds, requests and seconds.
pub record Limiter : Type 0 where
  pub window_ms : ℕ
  pub max : ℕ
  pub skip_successful_requests : Bool
  pub code : LimitCode
  pub message : String
  pub retry_after_seconds : ℕ

abbrev pub login_limiter : Limiter
login_limiter = record {
  window_ms = 900000;
  max = 5;
  skip_successful_requests = true;
  code = too_many_login_attempts;
  message = "Too many login attempts. Please wait 15 minutes before trying again.";
  retry_after_seconds = 900;
}

abbrev pub registration_limiter : Limiter
registration_limiter = record {
  window_ms = 3600000;
  max = 10;
  skip_successful_requests = false;
  code = too_many_registration_attempts;
  message = "Too many registration attempts from this IP. Please try again in 1 hour.";
  retry_after_seconds = 3600;
}

abbrev pub api_limiter : Limiter
api_limiter = record {
  window_ms = 60000;
  max = 200;
  skip_successful_requests = false;
  code = rate_limit_exceeded;
  message = "Too many requests. Please slow down.";
  retry_after_seconds = 60;
}

-- `rateLimitResponse(…)`, with its status.
pub record LimitReply : Type 0 where
  pub status : ℕ
  pub code : LimitCode
  pub message : String
  pub retry_after_seconds : ℕ

abbrev pub rate_limit_response : Limiter → LimitReply
rate_limit_response l = record {
  status = 429;
  code = l.code;
  message = l.message;
  retry_after_seconds = l.retry_after_seconds;
}

-- The limiter's own response, or `next()`; `is_test` is `env.NODE_ENV === 'test'`.
unfoldable pub limit : Limiter → Bool → (ℕ → String → Bool) → String → Option LimitReply
limit l is_test is_over key =
    if is_test then none else if is_over l.max key then some (rate_limit_response l) else none

abbrev pub normalise : String → String
normalise email = trim (to_lower email)

abbrev pub key_of : String → String → String
key_of ip email = if str_eq email "" then ip else String.◌++◌ ip (String.◌++◌ ":" email)

-- `keyGenerator` of the login limiter, on the body's `email` as it was sent.
unfoldable pub login_key : String → Option String → String
login_key ip none = ip
login_key ip (some email) = key_of ip (normalise email)

key_of-inj : (ip ip' email : String) → key_of ip email ≡ key_of ip' email → ip ≡ ip'
key_of-inj ip ip' email h = go (str_eq email "") h
  where
    go :
        (b : Bool)
        → (if b then ip else String.◌++◌ ip (String.◌++◌ ":" email))
          ≡ (if b then ip' else String.◌++◌ ip' (String.◌++◌ ":" email))
        → ip ≡ ip'
    go true e = e
    go false e = append_cancel_right ip ip' _ e

-- Requests for one account, however its e-mail address is spaced and cased, are counted together
-- exactly where they come from one address: from another address the count begins anew.
login_key-eq_iff :
    (ip ip' email email' : String)
    → normalise email ≡ normalise email'
    → (login_key ip (some email) ≡ login_key ip' (some email')) ↔ (ip ≡ ip')
unfolding login_key
login_key-eq_iff ip ip' email email' same = (
  (λ h. key_of-inj ip ip' (normalise email) (h ∙ ap (key_of ip') (sym same))),
  (λ e. ap (λ a. key_of a (normalise email)) e ∙ ap (key_of ip') same),
)
