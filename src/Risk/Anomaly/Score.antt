-- ===== src/Risk/Anomaly/Score.antt =====
-- How the score of the anomaly detection, its flags and the signals determine one another.
use vanguard_settlement_engi.Base.{ℕ, ◌+◌, ◌<◌, ◌≡◌, Bool, true, false, List, [], ◌∷◌, arith, any}
use vanguard_settlement_engi.Risk.Types.{
  AnomalySignals, AnomalyFlag, FlagCode, high, amount_spike_critical, amount_spike_moderate,
  unusually_short_payment_term, short_payment_term, buyer_high_default_history,
  buyer_default_history,
}
use vanguard_settlement_engi.Risk.Anomaly.{run_anomaly_detection}

-- The points that each flag stands for.
abbrev pub weight : FlagCode → ℕ
weight amount_spike_critical = 40
weight amount_spike_moderate = 20
weight unusually_short_payment_term = 35
weight short_payment_term = 10
weight buyer_high_default_history = 40
weight buyer_default_history = 20

abbrev pub total_weight : List AnomalyFlag → ℕ
total_weight [] = 0
total_weight (f ∷ fs) = weight f.code + total_weight fs

abbrev pub is_high : AnomalyFlag → Bool
is_high f = elim f.severity [ high ↦ true | _ ↦ false ]

-- A score above 50 is reached only with a flag of severity HIGH.
pub high_of_score :
    (signals : AnomalySignals)
    → 50 < (run_anomaly_detection signals).score
    → any is_high (run_anomaly_detection signals).flags ≡ true
unfolding run_anomaly_detection
high_of_score signals h = ground arith
