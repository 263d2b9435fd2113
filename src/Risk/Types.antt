-- ===== src/Risk/Types.antt =====
-- core/services/risk/risk.types.ts. Inputs are naturals, as AssessRiskSchema of
-- services/routes/risk/risk.schemas.ts admits no negative number, so `<= 0` is `== 0`. A reason, a
-- code or a message is a constructor that keeps what the template text shows.
use vanguard_settlement_engi.Base.{ℕ, String, Bool, List, ◌*◌, ltb}

-- A percentage `num / den`, exact where the source has a double.
pub record Percent : Type 0 where
  pub num : ℕ
  pub den : ℕ

-- `pct > limit`
abbrev pub exceeds : Percent → ℕ → Bool
exceeds pct limit = ltb (limit * pct.den) pct.num

pub record ThreeWayMatchInput : Type 0 where
  pub invoice_id : ℕ
  pub invoice_amount_cents : ℕ
  pub po_amount_cents : ℕ
  pub delivery_amount_cents : ℕ
  pub po_number : String
  pub delivery_receipt_id : String

pub data MatchReason : Type 0 where
  missing_po missing_delivery_receipt : MatchReason
  amount_mismatch : Percent → MatchReason
  delivery_shortfall : ℕ → MatchReason
  three_way_match_passed : MatchReason

pub record ThreeWayMatchResult : Type 0 where
  pub passed : Bool
  pub variance_pct : Percent
  pub reason : MatchReason

pub record AnomalySignals : Type 0 where
  pub invoice_id : ℕ
  pub buyer_id : ℕ
  pub supplier_id : ℕ
  pub amount_cents : ℕ
  pub due_date : ℕ
  pub submitted_at : ℕ
  pub avg_invoice_amount_cents : ℕ
  pub days_until_due : ℕ
  pub prior_default_count : ℕ

pub data Severity : Type 0 where
  low medium high : Severity

pub data FlagCode : Type 0 where
  amount_spike_critical amount_spike_moderate : FlagCode
  unusually_short_payment_term short_payment_term : FlagCode
  buyer_high_default_history buyer_default_history : FlagCode

pub data FlagMessage : Type 0 where
  above_average : Percent → FlagMessage
  unusually_short due_in : ℕ → FlagMessage
  prior_defaults prior_default_s : ℕ → FlagMessage

pub record AnomalyFlag : Type 0 where
  pub code : FlagCode
  pub message : FlagMessage
  pub severity : Severity

pub record AnomalyResult : Type 0 where
  pub passed : Bool
  pub flags : List AnomalyFlag
  pub score : ℕ

pub data RiskDecision : Type 0 where
  approve reject manual_review : RiskDecision

pub data ReasonCode : Type 0 where
  match_failed buyer_risk_too_high critical_anomaly_detected elevated_risk_signals : ReasonCode
  all_checks_passed : ReasonCode

pub data ReasonMessage : Type 0 where
  match_reason : MatchReason → ReasonMessage
  buyer_score_exceeds anomaly_score_with_flags : ℕ → ReasonMessage
  both_scores : ℕ → ℕ → ReasonMessage
  all_verified : ReasonMessage

pub record RiskAssessmentResult : Type 0 where
  pub invoice_id : ℕ
  pub decision : RiskDecision
  pub confidence_score : ℕ
  pub reason_code : ReasonCode
  pub reason_message : ReasonMessage
  pub three_way_match : ThreeWayMatchResult
  pub anomaly_result : AnomalyResult
  pub buyer_risk_score : ℕ
  pub assessed_at : ℕ

pub record AssessInvoiceRiskCommand : Type 0 where
  pub invoice_id : ℕ
  pub three_way_match_input : ThreeWayMatchInput
  pub anomaly_signals : AnomalySignals
