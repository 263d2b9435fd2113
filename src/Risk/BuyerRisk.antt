-- ===== src/Risk/BuyerRisk.antt =====
-- core/services/risk/buyer-risk.engine.ts. `utilisation > 0.9` is read as
-- `10 * outstanding > 9 * limit`, exactly.
use vanguard_settlement_engi.Base.{ℕ, ◌+◌, ◌*◌, ◌≤◌, ◌<◌, min, max, arith, ltb, if◌then◌else◌}

pub record BuyerRiskInput : Type 0 where
  pub prior_default_count : ℕ
  pub days_since_last_payment : ℕ
  pub outstanding_amount_cents : ℕ
  pub credit_limit_cents : ℕ

-- Component 1: default history.
unfoldable pub default_points : ℕ → ℕ
default_points count = min (count * 15) 40

-- Component 2: recency of the last payment.
unfoldable pub recency_points : ℕ → ℕ
recency_points days =
    if ltb 180 days then 30 else if ltb 90 days then 20 else if ltb 30 days then 10 else 0

-- Component 3: credit utilisation.
unfoldable pub utilisation_points : ℕ → ℕ → ℕ
utilisation_points outstanding limit =
    if ltb 0 limit
    then if ltb (9 * limit) (10 * outstanding)
      then 30
      else if ltb (7 * limit) (10 * outstanding)
      then 20
      else if ltb (5 * limit) (10 * outstanding)
      then 10
      else 0
    else 0

-- The sum is a natural, so `Math.round` changes nothing.
unfoldable pub score_buyer_risk : BuyerRiskInput → ℕ
score_buyer_risk input =
    min
      (max
        (default_points input.prior_default_count
          + recency_points input.days_since_last_payment
          + utilisation_points input.outstanding_amount_cents input.credit_limit_cents)
        0)
      100

-- One buyer is no better than another on any of the measures.
pub record Riskier (a b : BuyerRiskInput) : Type 0 where
  pub more_defaults : a.prior_default_count ≤ b.prior_default_count
  pub longer_ago : a.days_since_last_payment ≤ b.days_since_last_payment
  pub more_owed : a.outstanding_amount_cents ≤ b.outstanding_amount_cents
  pub less_credit : b.credit_limit_cents ≤ a.credit_limit_cents
  pub some_credit : 0 < b.credit_limit_cents

default_points_mono : (m n : ℕ) → m ≤ n → default_points m ≤ default_points n
unfolding default_points
default_points_mono m n h = omega arith

recency_points_mono : (m n : ℕ) → m ≤ n → recency_points m ≤ recency_points n
unfolding recency_points
recency_points_mono m n h = ground arith

utilisation_points_mono :
    (m n k l : ℕ) → m ≤ n → l ≤ k → 0 < l → utilisation_points m k ≤ utilisation_points n l
unfolding utilisation_points
utilisation_points_mono m n k l h p q = ground arith

-- The score lies between 0 and 100 and never falls when a buyer has more defaults, paid longer ago,
-- owes more, or has a smaller credit limit that is still above 0.
score_buyer_risk_mono :
    (a b : BuyerRiskInput)
    → Riskier a b
    → (score_buyer_risk a ≤ score_buyer_risk b) × (score_buyer_risk b ≤ 100)
unfolding score_buyer_risk
score_buyer_risk_mono a b h = omega (
  arith,
  default_points_mono _ _ h.more_defaults,
  recency_points_mono _ _ h.longer_ago,
  utilisation_points_mono _ _ _ _ h.more_owed h.less_credit h.some_credit,
)

-- With nothing outstanding the third component is 0.
pub score_buyer_risk_idle :
    (count days : ℕ)
    → score_buyer_risk (record {
      prior_default_count = count;
      days_since_last_payment = days;
      outstanding_amount_cents = 0;
      credit_limit_cents = 1000000000;
    })
      ≤ 70
unfolding score_buyer_risk default_points recency_points utilisation_points
score_buyer_risk_idle count days = ground arith
