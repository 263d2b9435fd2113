-- ===== src/Risk/Anomaly.antt =====
-- core/services/risk/anomaly.engine.ts. `flags` and `score` are threaded through the three signals.
pub mod Score
use vanguard_settlement_engi.Base.{
  ℕ, ◌+◌, ◌*◌, Bool, ◌&&◌, List, [], ◌∷◌, ◌++◌, ltb, leb, if◌then◌else◌,
}
use vanguard_settlement_engi.Risk.Types.{
  Percent, exceeds, AnomalySignals, AnomalyFlag, AnomalyResult, low, medium, high, FlagCode,
  FlagMessage, Severity, amount_spike_critical, amount_spike_moderate, unusually_short_payment_term,
  short_payment_term, buyer_high_default_history, buyer_default_history, above_average,
  unusually_short, due_in, prior_defaults, prior_default_s,
}
use vanguard_settlement_engi.Risk.ThreeWayMatch.{abs_diff}

-- The two variables of the function.
pub record Findings : Type 0 where
  pub flags : List AnomalyFlag
  pub score : ℕ

-- `flags.push({ … }); score += points`
abbrev pub push : FlagCode → FlagMessage → Severity → ℕ → Findings → Findings
push c m s points f = record {
  flags = f.flags ++ record { code = c; message = m; severity = s } ∷ [];
  score = f.score + points;
}

abbrev pub deviation_pct : AnomalySignals → Percent
deviation_pct signals = record {
  num = abs_diff signals.amount_cents signals.avg_invoice_amount_cents * 100;
  den = signals.avg_invoice_amount_cents;
}

-- Signal 1: the amount against the supplier's average.
amount_signal : AnomalySignals → Findings → Findings
amount_signal signals f =
    if ltb 0 signals.avg_invoice_amount_cents
    then if exceeds (deviation_pct signals) 300
      then push amount_spike_critical (above_average (deviation_pct signals)) high 40 f
      else if exceeds (deviation_pct signals) 150
      then push amount_spike_moderate (above_average (deviation_pct signals)) medium 20 f
      else f
    else f

-- Signal 2: the due date.
due_date_signal : AnomalySignals → Findings → Findings
due_date_signal signals f =
    if ltb signals.days_until_due 7 && ltb 100000 signals.amount_cents
    then push unusually_short_payment_term (unusually_short signals.days_until_due) high 35 f
    else if ltb signals.days_until_due 14
    then push short_payment_term (due_in signals.days_until_due) low 10 f
    else f

-- Signal 3: the buyer's defaults.
default_signal : AnomalySignals → Findings → Findings
default_signal signals f =
    if leb 3 signals.prior_default_count
    then push buyer_high_default_history (prior_defaults signals.prior_default_count) high 40 f
    else if leb 1 signals.prior_default_count
    then push buyer_default_history (prior_default_s signals.prior_default_count) medium 20 f
    else f

collect : AnomalySignals → Findings
unfolding amount_signal due_date_signal default_signal
collect signals =
    default_signal signals
      (due_date_signal signals (amount_signal signals (record { flags = []; score = 0 })))

unfoldable pub run_anomaly_detection : AnomalySignals → AnomalyResult
unfolding collect
run_anomaly_detection signals = record {
  passed = leb (collect signals).score 50;
  flags = (collect signals).flags;
  score = (collect signals).score;
}
