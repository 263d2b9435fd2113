-- ===== src/Risk/Engine/Decision.antt =====
-- When the engine approves, rejects or asks for a review.
use vanguard_settlement_engi.Base.{
  ℕ, ◌+◌, ◌≤◌, ◌<◌, ◌≡◌, ◌≢◌, ◌↔◌, ◌⊎◌, false, arith, inl, inr, Bool-cases,
}
use vanguard_settlement_engi.Risk.Types.{
  AssessInvoiceRiskCommand, approve, reject, buyer_risk_too_high, AnomalySignals,
}
use vanguard_settlement_engi.Risk.ThreeWayMatch.{
  run_three_way_match, Agrees, run_three_way_match-Agrees,
}
use vanguard_settlement_engi.Risk.Anomaly.{run_anomaly_detection}
use vanguard_settlement_engi.Risk.Anomaly.Score.{high_of_score}
use vanguard_settlement_engi.Risk.BuyerRisk.{score_buyer_risk, score_buyer_risk_idle}
use vanguard_settlement_engi.Risk.Engine.{assess_invoice_risk, buyer_risk_input}

score_buyer_risk-le : (s : AnomalySignals) → score_buyer_risk (buyer_risk_input s) ≤ 70
score_buyer_risk-le s = score_buyer_risk_idle _ _

-- With no outstanding amount the buyer's score cannot pass 70, so the gate at 75 never rejects.
pub buyer_gate_unreachable :
    (now : ℕ) (cmd : AssessInvoiceRiskCommand)
    → ((assess_invoice_risk now cmd).buyer_risk_score ≤ 70)
      × ((assess_invoice_risk now cmd).reason_code ≢ buyer_risk_too_high)
unfolding assess_invoice_risk
buyer_gate_unreachable now cmd = (
  ground (arith, score_buyer_risk-le cmd.anomaly_signals),
  ground (arith, score_buyer_risk-le cmd.anomaly_signals),
)

module _ (now : ℕ) (cmd : AssessInvoiceRiskCommand) where
  approve_iff : ((assess_invoice_risk now cmd).decision ≡ approve) ↔ (
      Agrees cmd.three_way_match_input
      × (score_buyer_risk (buyer_risk_input cmd.anomaly_signals) < 50)
      × ((run_anomaly_detection cmd.anomaly_signals).score < 30))
  unfolding assess_invoice_risk
  approve_iff = (
    (λ h. (
      (run_three_way_match-Agrees cmd.three_way_match_input).0 (ground arith),
      ground arith,
      ground arith,
    )),
    (λ h. ground (arith, (run_three_way_match-Agrees cmd.three_way_match_input).1 h.0)),
  )

  not_passed :
      ¬ Agrees cmd.three_way_match_input
      → (run_three_way_match cmd.three_way_match_input).passed ≡ false
  not_passed n = elim (Bool-cases (run_three_way_match cmd.three_way_match_input).passed) [
    | inl e ↦ absurd (n ((run_three_way_match-Agrees cmd.three_way_match_input).0 e))
    | inr e ↦ e
  ]

  not_Agrees :
      (run_three_way_match cmd.three_way_match_input).passed ≡ false
      → ¬ Agrees cmd.three_way_match_input
  not_Agrees e a = cc (e, (run_three_way_match-Agrees cmd.three_way_match_input).1 a)

  reject_iff : ((assess_invoice_risk now cmd).decision ≡ reject) ↔ (
      (¬ Agrees cmd.three_way_match_input)
      ⊎ (60 < (run_anomaly_detection cmd.anomaly_signals).score))
  unfolding assess_invoice_risk
  reject_iff = (
    (λ h. elim (Bool-cases (run_three_way_match cmd.three_way_match_input).passed) [
      | inl e ↦ inr (ground (arith, score_buyer_risk-le cmd.anomaly_signals))
      | inr e ↦ inl (not_Agrees e)
    ]),
    (λ h. elim h [
      | inl n ↦ ground (arith, not_passed n)
      | inr k ↦ ground (arith, high_of_score cmd.anomaly_signals)
    ]),
  )

  -- The engine approves exactly when the three documents agree, the buyer's score is below 50 and
  -- the anomaly score is below 30. It rejects exactly when the documents disagree or the anomaly
  -- score is above 60: the test for a flag of severity HIGH beside the latter decides nothing.
  pub assess_invoice_risk-Decides :
      (((assess_invoice_risk now cmd).decision ≡ approve) ↔ (
        Agrees cmd.three_way_match_input
        × (score_buyer_risk (buyer_risk_input cmd.anomaly_signals) < 50)
        × ((run_anomaly_detection cmd.anomaly_signals).score < 30)))
      × (((assess_invoice_risk now cmd).decision ≡ reject) ↔ (
          (¬ Agrees cmd.three_way_match_input)
          ⊎ (60 < (run_anomaly_detection cmd.anomaly_signals).score)))
  assess_invoice_risk-Decides = (approve_iff, reject_iff)

  -- The confidence of an approval is what the two scores leave of 100, and is
  -- above 21.
  approve_confidence :
      (assess_invoice_risk now cmd).decision ≡ approve
      → let r = assess_invoice_risk now cmd in
        (r.confidence_score + r.buyer_risk_score + r.anomaly_result.score ≡ 100)
        × (21 < r.confidence_score)
  unfolding assess_invoice_risk
  approve_confidence h = (ground arith, ground arith)
