-- ===== src/Risk/ThreeWayMatch.antt =====
-- core/services/risk/three-way-match.engine.ts. A ratio of doubles is an exact fraction here.
use vanguard_settlement_engi.Base.{
  ℕ, ◌+◌, ◌-◌, ◌*◌, ◌≤◌, ◌<◌, true, false, ◌||◌, ◌==◌, ◌≡◌, ◌≢◌, ◌↔◌, arith, ltb, if◌then◌else◌,
  str_eq, eq_iff,
}
use vanguard_settlement_engi.Risk.Types.{
  Percent, exceeds, ThreeWayMatchInput, ThreeWayMatchResult, missing_po, missing_delivery_receipt,
  amount_mismatch, delivery_shortfall, three_way_match_passed,
}

abbrev pub max_variance_pct : ℕ
max_variance_pct = 2

-- `Math.abs(a - b)`: one of the two differences is 0.
abbrev pub abs_diff : ℕ → ℕ → ℕ
abs_diff a b = (a - b) + (b - a)

abbrev no_variance : Percent
no_variance = record { num = 0; den = 1 }

abbrev pub variance_of : ThreeWayMatchInput → Percent
variance_of input = record {
  num = abs_diff input.invoice_amount_cents input.po_amount_cents * 100;
  den = input.po_amount_cents;
}

unfoldable pub run_three_way_match : ThreeWayMatchInput → ThreeWayMatchResult
run_three_way_match input =
    if str_eq input.po_number "" || input.po_amount_cents == 0
    then record { passed = false; variance_pct = no_variance; reason = missing_po }
    else if str_eq input.delivery_receipt_id ""
    then record { passed = false; variance_pct = no_variance; reason = missing_delivery_receipt }
    else if exceeds (variance_of input) max_variance_pct
    then record {
      passed = false;
      variance_pct = variance_of input;
      reason = amount_mismatch (variance_of input);
    }
    else if ltb input.delivery_amount_cents input.invoice_amount_cents
    then record {
      passed = false;
      variance_pct = variance_of input;
      reason = delivery_shortfall (input.invoice_amount_cents - input.delivery_amount_cents);
    }
    else record { passed = true; variance_pct = variance_of input; reason = three_way_match_passed }

-- What the three documents must agree on, without a ratio: the invoice lies between 98% and 102%
-- of the order, and the delivery covers it.
pub record Agrees (input : ThreeWayMatchInput) : Type 0 where
  pub order_named : input.po_number ≢ ""
  pub order_positive : 0 < input.po_amount_cents
  pub receipt_named : input.delivery_receipt_id ≢ ""
  pub not_below : 98 * input.po_amount_cents ≤ 100 * input.invoice_amount_cents
  pub not_above : 100 * input.invoice_amount_cents ≤ 102 * input.po_amount_cents
  pub delivered : input.invoice_amount_cents ≤ input.delivery_amount_cents

passed-Agrees :
    (input : ThreeWayMatchInput) → (run_three_way_match input).passed ≡ true → Agrees input
unfolding run_three_way_match
passed-Agrees input h =
    ground (arith, eq_iff input.po_number "", eq_iff input.delivery_receipt_id "")

Agrees-passed :
    (input : ThreeWayMatchInput) → Agrees input → (run_three_way_match input).passed ≡ true
unfolding run_three_way_match
Agrees-passed input h =
    ground (arith, eq_iff input.po_number "", eq_iff input.delivery_receipt_id "")

-- The match passes exactly when the order and the receipt are named, the order is positive, the
-- invoice is within 2% of the order on either side, and the delivery covers the invoice.
pub run_three_way_match-Agrees :
    (input : ThreeWayMatchInput) → ((run_three_way_match input).passed ≡ true) ↔ Agrees input
run_three_way_match-Agrees input = (passed-Agrees input, Agrees-passed input)
