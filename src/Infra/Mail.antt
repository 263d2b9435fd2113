-- ===== src/Infra/Mail.antt =====
-- infra/email/templates/invoice-approved.template.ts and the handler of infra/queue/jobs that sends
-- it. `Intl.NumberFormat` with a currency, and how a date is written, are arguments.
use Prim.Native.String
use vanguard_settlement_engi.Base.{ℕ, String, List, [], ◌∷◌, ◌++◌, trim}

-- `InvoiceApprovedPayload` of infra/queue/job-payloads.ts.
pub record InvoiceApprovedPayload : Type 0 where
  pub invoice_id : String
  pub invoice_number : String
  pub supplier_id : String
  pub supplier_email : String
  pub buyer_id : String
  pub amount_cents : ℕ
  pub currency : String
  pub due_date : String
  pub approved_at : String

-- `SendEmailOptions` of infra/email/mailer.ts.
pub record Email : Type 0 where
  pub to : String
  pub subject : String
  pub html : String
  pub text : String

-- The lines of a template, each behind a line break.
abbrev pub lines : List String → String
lines [] = ""
lines (l ∷ ls) = String.◌++◌ "\n" (String.◌++◌ l (lines ls))

-- A text put into a line.
abbrev pub around : String → String → String → String
around before text after = String.◌++◌ before (String.◌++◌ text after)

abbrev pub html_head : List String
html_head =
    "<!DOCTYPE html>" ∷ "<html lang=\"en\">" ∷ "<head>" ∷ "  <meta charset=\"UTF-8\">"
    ∷ "  <meta name=\"viewport\" content=\"width=device-width, initial-scale=1.0\">"
    ∷ "  <title>Invoice Approved — Vanguard Settlement Engine</title>" ∷ "  <style>"
    ∷ "    body        { font-family: -apple-system, BlinkMacSystemFont, 'Segoe UI',"
    ∷ "                  sans-serif; background: #f5f5f5; margin: 0; padding: 20px; }"
    ∷ "    .container  { max-width: 560px; margin: 0 auto; background: #ffffff;"
    ∷ "                  border-radius: 8px; overflow: hidden;"
    ∷ "                  border: 1px solid #e0e0e0; }"
    ∷ "    .header     { background: #1a1a2e; color: #ffffff; padding: 28px 32px; }"
    ∷ "    .header h1  { margin: 0; font-size: 22px; font-weight: 500; }"
    ∷ "    .header p   { margin: 6px 0 0; font-size: 13px; opacity: 0.7; }"
    ∷ "    .body       { padding: 32px; }"
    ∷ "    .status     { background: #e8f5e9; border-left: 4px solid #2e7d32;"
    ∷ "                  padding: 14px 16px; border-radius: 4px; margin-bottom: 24px; }"
    ∷ "    .status p   { margin: 0; color: #1b5e20; font-weight: 500; }"
    ∷ "    .detail-row { display: flex; justify-content: space-between;"
    ∷ "                  padding: 10px 0; border-bottom: 1px solid #f0f0f0; }"
    ∷ "    .detail-row:last-child { border-bottom: none; }"
    ∷ "    .label      { color: #666; font-size: 13px; }"
    ∷ "    .value      { font-weight: 500; font-size: 13px; text-align: right; }"
    ∷ "    .amount     { font-size: 22px; font-weight: 600; color: #1a1a2e; }"
    ∷ "    .cta        { margin-top: 28px; text-align: center; }"
    ∷ "    .cta a      { background: #1a1a2e; color: #ffffff; text-decoration: none;"
    ∷ "                  padding: 12px 28px; border-radius: 6px; font-size: 14px;"
    ∷ "                  display: inline-block; }"
    ∷ "    .footer     { padding: 20px 32px; background: #fafafa;"
    ∷ "                  border-top: 1px solid #f0f0f0; font-size: 12px;"
    ∷ "                  color: #999; }" ∷ "  </style>" ∷ "</head>" ∷ []

module _ (format_currency : ℕ → String → String) (local_date : String → String)
    (payload : InvoiceApprovedPayload) where
  abbrev pub html_body : String → String → String → List String
  html_body amount due_date approved =
      "<body>"
      ∷ "  <div class=\"container\">"
      ∷ "    <div class=\"header\">"
      ∷ "      <h1>Vanguard Settlement Engine</h1>"
      ∷ "      <p>Invoice Financing Platform</p>"
      ∷ "    </div>"
      ∷ "    <div class=\"body\">"
      ∷ "      <div class=\"status\">"
      ∷ "        <p>Your invoice has been approved by the buyer.</p>"
      ∷ "      </div>"
      ∷ "      <div class=\"detail-row\">"
      ∷ "        <span class=\"label\">Invoice number</span>"
      ∷ around "        <span class=\"value\">" payload.invoice_number "</span>"
      ∷ "      </div>"
      ∷ "      <div class=\"detail-row\">"
      ∷ "        <span class=\"label\">Invoice amount</span>"
      ∷ around "        <span class=\"value amount\">" amount "</span>"
      ∷ "      </div>"
      ∷ "      <div class=\"detail-row\">"
      ∷ "        <span class=\"label\">Due date</span>"
      ∷ around "        <span class=\"value\">" due_date "</span>"
      ∷ "      </div>"
      ∷ "      <div class=\"detail-row\">"
      ∷ "        <span class=\"label\">Approved on</span>"
      ∷ around "        <span class=\"value\">" approved "</span>"
      ∷ "      </div>"
      ∷ "      <div class=\"cta\">"
      ∷ "        <a href=\"#\">Request Financing</a>"
      ∷ "      </div>"
      ∷ "    </div>"
      ∷ "    <div class=\"footer\">"
      ∷ "      This is an automated notification from Vanguard Settlement Engine."
      ∷ "      Do not reply to this email."
      ∷ "    </div>"
      ∷ "  </div>"
      ∷ "</body>"
      ∷ "</html>"
      ∷ []

  unfoldable pub invoice_approved_html : String
  invoice_approved_html = lines (
      html_head
      ++ html_body (format_currency payload.amount_cents payload.currency)
          (local_date payload.due_date) (local_date payload.approved_at))

  unfoldable pub invoice_approved_text : String
  invoice_approved_text = trim (
      lines (
        "Invoice Approved — Vanguard Settlement Engine"
        ∷ ""
        ∷ String.◌++◌ "Your invoice " (
            String.◌++◌ payload.invoice_number (
              around " for " (format_currency payload.amount_cents payload.currency)
                " has been approved by the buyer."))
        ∷ String.◌++◌ "Due date: " payload.due_date
        ∷ String.◌++◌ "Approved: " payload.approved_at
        ∷ ""
        ∷ "Log in to request financing against this invoice."
        ∷ ""
        ∷ "---"
        ∷ "Automated notification from Vanguard Settlement Engine."
        ∷ ""
        ∷ []))

  -- `InvoiceApprovedHandler.handle` sends this.
  unfoldable pub invoice_approved_email : Email
  invoice_approved_email = record {
    to = payload.supplier_email;
    subject = around "Invoice " payload.invoice_number " approved — request financing now";
    html = invoice_approved_html;
    text = invoice_approved_text;
  }
