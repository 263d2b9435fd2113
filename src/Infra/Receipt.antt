-- ===== src/Infra/Receipt.antt =====
-- `generateSettlementReceipt` of infra/pdf/receipt-generator.ts: what it draws, in order. A chain of
-- settings on `doc` is the style that results of it. How a date is written, and the file's name, which
-- has the clock in it, are arguments.
pub mod Layout
use Prim.Native.String
use Prim.Native.Nat.{◌%◌}
use vanguard_settlement_engi.Base.{
  ℕ, ◌+◌, ◌*◌, String, Bool, List, [], ◌∷◌, ◌++◌, ◌==◌, length, if◌then◌else◌,
}
use vanguard_settlement_engi.Infra.Currency.{format_currency}

-- `SettlementReceiptPdfPayload` of infra/queue/job-payloads.ts; identifiers are texts in a payload.
pub record SettlementReceiptPdfPayload : Type 0 where
  pub invoice_id : String
  pub invoice_number : String
  pub supplier_id : String
  pub buyer_id : String
  pub amount_cents : ℕ
  pub currency : String
  pub settled_at : String

pub record Style : Type 0 where
  pub size : ℕ
  pub bold : Bool
  pub colour : String

-- The numbers are points from the upper left corner; a line's width is in tenths of a point.
pub data Draw : Type 0 where
  -- x and y
  text : Style → ℕ → ℕ → String → Draw
  -- x, y and width
  centred : Style → ℕ → ℕ → ℕ → String → Draw
  -- from x and y to x and y
  line : ℕ → ℕ → ℕ → ℕ → String → ℕ → Draw
  -- x, y, width, height, radius and colour
  fill : ℕ → ℕ → ℕ → ℕ → ℕ → String → Draw
  -- x, y, width, height, colour and width of the line
  border : ℕ → ℕ → ℕ → ℕ → String → ℕ → Draw

abbrev pub regular : ℕ → String → Style
regular size colour = record { size = size; bold = Bool.false; colour = colour }

abbrev pub bold : ℕ → String → Style
bold size colour = record { size = size; bold = Bool.true; colour = colour }

abbrev pub table_top : ℕ
table_top = 230

abbrev pub col_label : ℕ
col_label = 50

abbrev pub col_value : ℕ
col_value = 320

abbrev pub row_height : ℕ
row_height = 32

-- A label and a value.
abbrev pub Row : Type 0
Row = String × String

abbrev pub background : ℕ → String
background index = if index % 2 == 0 then "#fafafa" else "#ffffff"

abbrev pub draw_row : ℕ → Row → List Draw
draw_row index (label, value) =
    let y = table_top + index * row_height in
    fill 50 y 495 row_height 0 (background index)
    ∷ text (regular 10 "#666666") col_label (y + 10) label
    ∷ text (bold 10 "#1a1a2e") col_value (y + 10) value
    ∷ []

-- `rows.forEach((row, index) => …)`
abbrev pub draw_rows : ℕ → List Row → List Draw
draw_rows index [] = []
draw_rows index (row ∷ rows) = draw_row index row ++ draw_rows (index + 1) rows

module _ (format_date : String → String) (now : String) (data' : SettlementReceiptPdfPayload) where
  abbrev pub header : List Draw
  header =
      text (bold 20 "black") 50 50 "Vanguard Settlement Engine"
      ∷ text (regular 10 "#666666") 50 76 "Invoice Financing Platform"
      ∷ line 50 100 545 100 "#e0e0e0" 10
      ∷ text (bold 16 "#1a1a2e") 50 120 "Settlement Receipt"
      ∷ text (regular 10 "#666666") 50 142 (String.◌++◌ "Receipt generated: " (format_date now))
      ∷ fill 50 168 495 36 4 "#e8f5e9"
      ∷ text (bold 11 "#2e7d32") 66 180 "FULLY SETTLED"
      ∷ text (regular 10 "#388e3c") 200 181
          (String.◌++◌ "Settled on " (format_date data'.settled_at))
      ∷ []

  abbrev pub rows : List Row
  rows =
      ("Invoice Number", data'.invoice_number)
      ∷ ("Invoice Amount", format_currency data'.amount_cents data'.currency)
      ∷ ("Currency", data'.currency)
      ∷ ("Supplier ID", data'.supplier_id)
      ∷ ("Buyer ID", data'.buyer_id)
      ∷ ("Settlement Date", format_date data'.settled_at)
      ∷ []

  abbrev pub table_border : List Row → Draw
  table_border rs = border 50 table_top 495 (length rs * row_height) "#e0e0e0" 5

  -- Behind the table, from `amount_y` on.
  abbrev pub amount_and_footer : ℕ → List Draw
  amount_and_footer amount_y =
      let footer_y = amount_y + 100 in
      fill 50 amount_y 495 60 4 "#1a1a2e"
      ∷ text (regular 12 "#ffffff") 66 (amount_y + 14) "Total Settlement Amount"
      ∷ text (bold 22 "#ffffff") 66 (amount_y + 30)
          (format_currency data'.amount_cents data'.currency)
      ∷ line 50 footer_y 545 footer_y "#e0e0e0" 5
      ∷ centred (regular 9 "#999999") 50 (footer_y + 12) 495
          "This is a system-generated settlement receipt from Vanguard Settlement Engine. This document serves as proof that the invoice financing has been fully repaid."
      ∷ centred (regular 9 "#cccccc") 50 (footer_y + 42) 495
          (String.◌++◌ "Invoice ID: " data'.invoice_id)
      ∷ []

  -- What ends up in the file.
  unfoldable pub settlement_receipt : List Draw
  settlement_receipt =
      header
      ++ draw_rows 0 rows
      ++ table_border rows ∷ amount_and_footer (table_top + length rows * row_height + 24)

-- `receipt-${data.invoice_id}-${Date.now()}.pdf` in `storage/receipts`
unfoldable pub receipt_path : String → String → String
receipt_path invoice_id now_text =
    String.◌++◌ "storage/receipts/receipt-"
      (String.◌++◌ invoice_id (String.◌++◌ "-" (String.◌++◌ now_text ".pdf")))
