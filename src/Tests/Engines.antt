-- ===== src/Tests/Engines.antt =====
-- The risk engines on one invoice.
use vanguard_settlement_engi.Base.{◌≤◌, ◌<◌, true, ◌≡◌, ◌≢◌, ◌⊎◌, ◌↔◌, arith}
use vanguard_settlement_engi.Risk.Types.{approve, reject, buyer_risk_too_high, AnomalySignals}
use vanguard_settlement_engi.Risk.ThreeWayMatch.{
  run_three_way_match, Agrees, run_three_way_match-Agrees,
}
use vanguard_settlement_engi.Risk.Anomaly.{run_anomaly_detection}
use vanguard_settlement_engi.Risk.BuyerRisk.{BuyerRiskInput, Riskier, score_buyer_risk}
use vanguard_settlement_engi.Risk.Engine.{assess_invoice_risk, buyer_risk_input}
use vanguard_settlement_engi.Risk.Engine.Decision.{
  buyer_gate_unreachable, assess_invoice_risk-Decides,
}
use vanguard_settlement_engi.Tests.Samples.{documents, signals, assess_command}

-- Ten times the average, due tomorrow, from a buyer with defaults.
abbrev suspicious : AnomalySignals
suspicious = record signals { amount_cents = 1000; days_until_due = 1; prior_default_count = 5 }

run_three_way_match-Agrees_example :
    ((run_three_way_match documents).passed ≡ true) ↔ Agrees documents
run_three_way_match-Agrees_example = run_three_way_match-Agrees documents

abbrev good_buyer : BuyerRiskInput
good_buyer = record {
  prior_default_count = 0;
  days_since_last_payment = 10;
  outstanding_amount_cents = 0;
  credit_limit_cents = 100;
}

abbrev bad_buyer : BuyerRiskInput
bad_buyer = record {
  prior_default_count = 2;
  days_since_last_payment = 200;
  outstanding_amount_cents = 80;
  credit_limit_cents = 90;
}

bad_buyer-Riskier : Riskier good_buyer bad_buyer
bad_buyer-Riskier = record {
  more_defaults = omega arith;
  longer_ago = omega arith;
  more_owed = omega arith;
  less_credit = omega arith;
  some_credit = omega arith;
}

buyer_gate_unreachable_example :
    ((assess_invoice_risk 1000 assess_command).buyer_risk_score ≤ 70)
    × ((assess_invoice_risk 1000 assess_command).reason_code ≢ buyer_risk_too_high)
buyer_gate_unreachable_example = buyer_gate_unreachable 1000 assess_command

assess_invoice_risk-Decides_example :
    let cmd = record assess_command { anomaly_signals = suspicious } in
    (((assess_invoice_risk 1000 cmd).decision ≡ approve) ↔ (
      Agrees documents
      × (score_buyer_risk (buyer_risk_input suspicious) < 50)
      × ((run_anomaly_detection suspicious).score < 30)))
    × (((assess_invoice_risk 1000 cmd).decision ≡ reject)
        ↔ ((¬ Agrees documents) ⊎ (60 < (run_anomaly_detection suspicious).score)))
assess_invoice_risk-Decides_example =
    assess_invoice_risk-Decides 1000 (record assess_command { anomaly_signals = suspicious })
