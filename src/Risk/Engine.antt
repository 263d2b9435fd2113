-- ===== src/Risk/Engine.antt =====
-- core/services/risk/risk.engine.ts: the decision.
pub mod Decision
use vanguard_settlement_engi.Base.{
  ℕ, ◌-◌, Bool, true, false, not, ◌&&◌, ◌||◌, ltb, leb, if◌then◌else◌, any, max,
}
use vanguard_settlement_engi.Risk.Types.{
  AssessInvoiceRiskCommand, RiskAssessmentResult, RiskDecision, ReasonCode, ReasonMessage,
  ThreeWayMatchResult, AnomalyResult, AnomalySignals, approve, reject, manual_review, match_failed,
  buyer_risk_too_high, critical_anomaly_detected, elevated_risk_signals, all_checks_passed,
  match_reason, buyer_score_exceeds, anomaly_score_with_flags, both_scores, all_verified,
}
use vanguard_settlement_engi.Risk.ThreeWayMatch.{run_three_way_match}
use vanguard_settlement_engi.Risk.Anomaly.{run_anomaly_detection}
use vanguard_settlement_engi.Risk.Anomaly.Score.{is_high}
use vanguard_settlement_engi.Risk.BuyerRisk.{BuyerRiskInput, score_buyer_risk}

abbrev pub buyer_risk_auto_reject_threshold : ℕ
buyer_risk_auto_reject_threshold = 75

abbrev pub buyer_risk_manual_review_threshold : ℕ
buyer_risk_manual_review_threshold = 50

abbrev pub anomaly_manual_review_threshold : ℕ
anomaly_manual_review_threshold = 30

-- As in the source: the days until the due date stand for the days since the last payment.
abbrev pub buyer_risk_input : AnomalySignals → BuyerRiskInput
buyer_risk_input signals = record {
  prior_default_count = signals.prior_default_count;
  days_since_last_payment = signals.days_until_due;
  outstanding_amount_cents = 0;
  credit_limit_cents = 1000000000;
}

-- `assessed_at` is the clock's reading, an argument.
abbrev build_result :
    ℕ
    → ℕ
    → RiskDecision
    → ℕ
    → ReasonCode
    → ReasonMessage
    → ThreeWayMatchResult
    → AnomalyResult
    → ℕ
    → RiskAssessmentResult
build_result now invoice_id decision confidence code message m a b = record {
  invoice_id = invoice_id;
  decision = decision;
  confidence_score = confidence;
  reason_code = code;
  reason_message = message;
  three_way_match = m;
  anomaly_result = a;
  buyer_risk_score = b;
  assessed_at = now;
}

-- The gates over the results of the three engines.
decide : ℕ → ℕ → ThreeWayMatchResult → AnomalyResult → ℕ → RiskAssessmentResult
decide now id m a b =
    if not m.passed
    then build_result now id reject 95 match_failed (match_reason m.reason) m a b
    else if leb buyer_risk_auto_reject_threshold b
    then build_result now id reject 85 buyer_risk_too_high (buyer_score_exceeds b) m a b
    else if any is_high a.flags && ltb 60 a.score
    then build_result now id reject 80 critical_anomaly_detected (anomaly_score_with_flags a.score)
        m a b
    else if leb buyer_risk_manual_review_threshold b || leb anomaly_manual_review_threshold a.score
    then build_result now id manual_review 60 elevated_risk_signals (both_scores b a.score) m a b
    else build_result now id approve (max 0 (100 - b - a.score)) all_checks_passed all_verified m a
        b

unfoldable pub assess_invoice_risk : ℕ → AssessInvoiceRiskCommand → RiskAssessmentResult
unfolding decide
assess_invoice_risk now cmd =
    decide now cmd.invoice_id (run_three_way_match cmd.three_way_match_input)
      (run_anomaly_detection cmd.anomaly_signals)
      (score_buyer_risk (buyer_risk_input cmd.anomaly_signals))
