-- ===== src/Infra/Redis.antt =====
-- `retryStrategy` of infra/queue/redis-connection.ts: how long to wait before the next attempt to
-- connect, or that there is none.
use vanguard_settlement_engi.Base.{
  ℕ, ◌*◌, ◌≤◌, Option, none, some, ltb, leb, ◌≡◌, ◌↔◌, arith, if◌then◌else◌,
}

-- `Math.min(a, b)`
abbrev pub smaller : ℕ → ℕ → ℕ
smaller a b = if leb a b then a else b

unfoldable pub retry_strategy : ℕ → Option ℕ
retry_strategy times = if ltb 10 times then none else some (smaller (times * 200) 3000)

-- A delay is given exactly for the first ten attempts, and is 200 milliseconds times their number.
retry_strategy_iff :
    (times delay : ℕ) → (retry_strategy times ≡ some delay) ↔ ((times ≤ 10) × (delay ≡ times * 200))
unfolding retry_strategy
retry_strategy_iff times delay = ((λ h. ground arith), (λ h. ground arith))
