-- ===== src/Server/Rules.antt =====
-- The middleware around a route keeps what the handler of the route keeps.
use vanguard_settlement_engi.Base.{Option, none, some, ◌≡◌, arith}
use vanguard_settlement_engi.Errors.{Thrown, Result, ok, err}
use vanguard_settlement_engi.Database.{Tables}
use vanguard_settlement_engi.Database.Session.{World, M, ◌>>=◌, pure, throw}
use vanguard_settlement_engi.Database.Quiet.{pure-IsQuiet}
use vanguard_settlement_engi.Database.Preserves.{Preserves, quiet-Preserves, >>=-Preserves}
use vanguard_settlement_engi.Api.Authenticate.{Request, Step, passed, replied}
use vanguard_settlement_engi.Api.Routes.{
  Response, answered, async_handler, reached, notified, duplicate_is_recorded,
}
use vanguard_settlement_engi.Api.WebhookAuth.{WebhookStep, accepted, refused}
use vanguard_settlement_engi.Api.Limits.{LimitReply}
use vanguard_settlement_engi.Api.Routes.Auth.{behind_limiter}

module _ (P : Tables → Type 0) where
  answered-keeps :
      {A : Type 0} (x : Result (Response A) × World) → P x.1.committed → P (answered x).1.committed
  answered-keeps (ok response, w) p = p
  answered-keeps (err e, w) p = p

  -- The error handler behind a route writes nothing.
  pub async_handler-keeps :
      {A : Type 0} (m : M (Response A)) (w : World)
      → Preserves P m
      → w.tx ≡ none
      → P w.committed
      → P (async_handler m w).1.committed
  async_handler-keeps m w k h p = answered-keeps (m w) (k.keeps w h p).1

  pub reached-keeps :
      {A : Type 0} (s : Step) (handler : Request → M (Response A)) (w : World)
      → ((req : Request) → Preserves P (handler req))
      → w.tx ≡ none
      → P w.committed
      → P (reached s handler w).1.committed
  reached-keeps (passed req) handler w k h p = async_handler-keeps (handler req) w (k req) h p
  reached-keeps (replied reply) handler w k h p = p

  pub notified-keeps :
      (s : WebhookStep) (handler : M (Response _)) (w : World)
      → Preserves P handler
      → w.tx ≡ none
      → P w.committed
      → P (notified s handler w).1.committed
  notified-keeps accepted handler w k h p = async_handler-keeps handler w k h p
  notified-keeps (refused reply) handler w k h p = p

  pub behind_limiter-keeps :
      (o : Option LimitReply) (m : M (Response _)) (w : World)
      → Preserves P m
      → w.tx ≡ none
      → P w.committed
      → P (behind_limiter o (async_handler m) w).1.committed
  behind_limiter-keeps (some reply) m w k h p = p
  behind_limiter-keeps none m w k h p = async_handler-keeps m w k h p

  -- The result of a call, put in a response.
  pub returned-Preserves :
      {A B : Type 0} (m : M A) (f : A → B) → Preserves P m → Preserves P (m >>= λ a. pure (f a))
  returned-Preserves m f k =
      >>=-Preserves P m _ k (λ a. quiet-Preserves P (pure (f a)) (pure-IsQuiet (f a)))

  pub throw-Preserves : {A : Type 0} (e : Thrown) → Preserves P (throw {A = A} e)
  throw-Preserves e = record { keeps = λ w h p. (h, p) }

  pub duplicate_is_recorded-Preserves : (e : Thrown) → Preserves P (duplicate_is_recorded e)
  duplicate_is_recorded-Preserves e = record { keeps = λ w h p. ground arith }
