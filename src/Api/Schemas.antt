-- ===== src/Api/Schemas.antt =====
-- services/routes/{invoice/invoice,van/van,risk/risk}.schemas.ts: the bodies that the modelled routes
-- read. A field of a body is absent where it is missing or of another JSON type, a UUID
-- also where it is not one;
-- a date is what `z.coerce.date()` makes of its field. The checks run in the order they are chained,
-- so `min` counts the spaces that `trim` then removes.
use vanguard_settlement_engi.Base.{
  ◌&&◌, ◌==◌, ℕ, String, Option, none, some, leb, ltb, js_length, trim, if◌then◌else◌,
}
use vanguard_settlement_engi.Errors.{Result, ok, err, zod_error}
use vanguard_settlement_engi.Invoice.Service.{SubmitInvoiceCommand}
use vanguard_settlement_engi.Risk.Types.{
  ThreeWayMatchInput, AnomalySignals, AssessInvoiceRiskCommand,
}
use vanguard_settlement_engi.Van.Service.{CreateVanCommand, RecordPaymentCommand}

-- `z.string().min(n).trim()`
abbrev pub min_then_trim : ℕ → Option String → Option String
min_then_trim n none = none
min_then_trim n (some s) = if leb n (js_length s) then some (trim s) else none

-- `z.number().int().positive()`
abbrev pub positive : Option ℕ → Option ℕ
positive none = none
positive (some n) = if ltb 0 n then some n else none

abbrev pub signature_of : Option String → Result String
signature_of none = err zod_error
signature_of (some s) = ok s

-- `ApproveInvoiceSchema.parse`, on the field `buyer_signature`.
unfoldable pub parse_approval : Option String → Result String
parse_approval buyer_signature = signature_of (min_then_trim 10 buyer_signature)

pub record PaymentBody : Type 0 where
  pub account_number : Option String
  pub amount_cents : Option ℕ
  pub idempotency_key : Option String
  pub paid_at : Option ℕ

-- `{}`
abbrev pub empty_body : PaymentBody
empty_body = record {
  account_number = none;
  amount_cents = none;
  idempotency_key = none;
  paid_at = none;
}

abbrev pub payment_of :
    Option String → Option ℕ → Option String → Option ℕ → Result RecordPaymentCommand
payment_of (some account_number) (some amount_cents) (some idempotency_key) (some paid_at) =
    ok (record {
      account_number = account_number;
      amount_cents = amount_cents;
      idempotency_key = idempotency_key;
      paid_at = paid_at;
    })
payment_of _ _ _ _ = err zod_error

-- `RecordPaymentSchema.parse`
unfoldable pub parse_payment : PaymentBody → Result RecordPaymentCommand
parse_payment body =
    payment_of (min_then_trim 1 body.account_number) (positive body.amount_cents)
      (min_then_trim 1 body.idempotency_key) body.paid_at

-- A field that has to be there.
abbrev pub field : {A : Type 0} → Option A → Result A
field none = err zod_error
field (some a) = ok a

infixl 5 ◌and_then◌
abbrev pub ◌and_then◌ : {A B : Type 0} → Result A → (A → Result B) → Result B
(err e) and_then f = err e
(ok a) and_then f = f a

pub record CreateVanBody : Type 0 where
  pub invoice_id : Option ℕ
  pub expected_amount_cents : Option ℕ

-- `CreateVanSchema.parse`
unfoldable pub parse_van : CreateVanBody → Result CreateVanCommand
parse_van body = field body.invoice_id and_then λ invoice_id.
    field (positive body.expected_amount_cents) and_then λ expected_amount_cents.
    ok (record { invoice_id = invoice_id; expected_amount_cents = expected_amount_cents })

pub record MatchBody : Type 0 where
  pub invoice_id : Option ℕ
  pub invoice_amount_cents : Option ℕ
  pub po_amount_cents : Option ℕ
  pub delivery_amount_cents : Option ℕ
  pub po_number : Option String
  pub delivery_receipt_id : Option String

pub record SignalsBody : Type 0 where
  pub invoice_id : Option ℕ
  pub buyer_id : Option ℕ
  pub supplier_id : Option ℕ
  pub amount_cents : Option ℕ
  pub due_date : Option ℕ
  pub submitted_at : Option ℕ
  pub avg_invoice_amount_cents : Option ℕ
  pub days_until_due : Option ℕ
  pub prior_default_count : Option ℕ

pub record AssessRiskBody : Type 0 where
  pub invoice_id : Option ℕ
  pub three_way_match_input : Option MatchBody
  pub anomaly_signals : Option SignalsBody

unfoldable pub parse_match : MatchBody → Result ThreeWayMatchInput
parse_match body = field body.invoice_id and_then λ invoice_id.
    field (positive body.invoice_amount_cents) and_then λ invoice_amount_cents.
    field (positive body.po_amount_cents) and_then λ po_amount_cents.
    field (positive body.delivery_amount_cents) and_then λ delivery_amount_cents.
    field (min_then_trim 1 body.po_number) and_then λ po_number.
    field (min_then_trim 1 body.delivery_receipt_id) and_then λ delivery_receipt_id. ok (record {
      invoice_id = invoice_id;
      invoice_amount_cents = invoice_amount_cents;
      po_amount_cents = po_amount_cents;
      delivery_amount_cents = delivery_amount_cents;
      po_number = po_number;
      delivery_receipt_id = delivery_receipt_id;
    })

-- The last three are `min(0)`, which every number here is.
unfoldable pub parse_signals : SignalsBody → Result AnomalySignals
parse_signals body = field body.invoice_id and_then λ invoice_id.
    field body.buyer_id and_then λ buyer_id. field body.supplier_id and_then λ supplier_id.
    field (positive body.amount_cents) and_then λ amount_cents.
    field body.due_date and_then λ due_date. field body.submitted_at and_then λ submitted_at.
    field body.avg_invoice_amount_cents and_then λ avg_invoice_amount_cents.
    field body.days_until_due and_then λ days_until_due.
    field body.prior_default_count and_then λ prior_default_count. ok (record {
      invoice_id = invoice_id;
      buyer_id = buyer_id;
      supplier_id = supplier_id;
      amount_cents = amount_cents;
      due_date = due_date;
      submitted_at = submitted_at;
      avg_invoice_amount_cents = avg_invoice_amount_cents;
      days_until_due = days_until_due;
      prior_default_count = prior_default_count;
    })

-- `AssessRiskSchema.parse`
unfoldable pub parse_assessment : AssessRiskBody → Result AssessInvoiceRiskCommand
unfolding parse_match parse_signals
parse_assessment body = field body.invoice_id and_then λ invoice_id.
    field body.three_way_match_input and_then λ match_body.
    parse_match match_body and_then λ three_way_match_input.
    field body.anomaly_signals and_then λ signals_body.
    parse_signals signals_body and_then λ anomaly_signals. ok (record {
      invoice_id = invoice_id;
      three_way_match_input = three_way_match_input;
      anomaly_signals = anomaly_signals;
    })

-- A currency is missing, or not a string, or there.
pub data CurrencyField : Type 0 where
  missing other_type : CurrencyField
  text : String → CurrencyField

pub record SubmitInvoiceBody : Type 0 where
  pub invoice_number : Option String
  pub buyer_id : Option ℕ
  pub amount_cents : Option ℕ
  pub currency : CurrencyField
  pub due_date : Option ℕ

-- `z.string().min(low).max(high).trim()`
abbrev pub within_then_trim : ℕ → ℕ → Option String → Option String
within_then_trim low high none = none
within_then_trim low high (some s) =
    if leb low (js_length s) && leb (js_length s) high then some (trim s) else none

-- `z.string().length(3).default('INR')`
abbrev pub currency_of : CurrencyField → Option String
currency_of missing = some "INR"
currency_of other_type = none
currency_of (text s) = if js_length s == 3 then some s else none

-- `SubmitInvoiceSchema.parse`, and `{ ...body, supplier_id: actorId }`.
unfoldable pub parse_submission : SubmitInvoiceBody → Result (ℕ → SubmitInvoiceCommand)
parse_submission body = field (within_then_trim 1 50 body.invoice_number) and_then λ invoice_number.
    field body.buyer_id and_then λ buyer_id.
    field (positive body.amount_cents) and_then λ amount_cents.
    field (currency_of body.currency) and_then λ currency. field body.due_date and_then λ due_date.
    ok (λ supplier_id. record {
      invoice_number = invoice_number;
      supplier_id = supplier_id;
      buyer_id = buyer_id;
      amount_cents = amount_cents;
      currency = currency;
      due_date = due_date;
    })
