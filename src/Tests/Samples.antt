-- ===== src/Tests/Samples.antt =====
-- Two organisations, an invoice through its lifecycle, and payments to its account.
use vanguard_settlement_engi.Base.{ℕ, String, Bool, true, false, none, List, [], ◌∷◌}
use vanguard_settlement_engi.Domain.{
  Organisation, OrgType, KycStatus, Invoice, VirtualAccount, LedgerEntry, InvoiceStatus,
  financing_requested, active, credit,
}
use vanguard_settlement_engi.Database.{Tables, Generated}
use vanguard_settlement_engi.Invoice.Service.{
  SubmitInvoiceCommand, ApproveInvoiceCommand, RequestFinancingCommand,
}
use vanguard_settlement_engi.Risk.Types.{
  AssessInvoiceRiskCommand, ThreeWayMatchInput, AnomalySignals,
}
use vanguard_settlement_engi.Van.Service.{Texts, CreateVanCommand, RecordPaymentCommand}
use vanguard_settlement_engi.System.Run.{
  Call, submit, approve, request, assess, open_account, pay, initial,
}

abbrev pub texts : Texts
texts = record { uuid_text = λ id. "invoice"; iso_text = λ date. "today" }

abbrev pub given : ℕ → Generated
given n = record { row_id = n; entry_id = n; event_id = n; now = 1000 }

abbrev organisation : ℕ → OrgType → Organisation
organisation id org_type = record {
  id = id;
  legal_name = "Works";
  gstin = none;
  org_type = org_type;
  kyc_status = KycStatus.verified;
  created_at = 0;
  updated_at = 0;
}

abbrev pub start : Tables
start = initial (organisation 1 OrgType.supplier ∷ organisation 2 OrgType.buyer ∷ []) []

abbrev pub submit_command : SubmitInvoiceCommand
submit_command = record {
  invoice_number = "INV-1";
  supplier_id = 1;
  buyer_id = 2;
  amount_cents = 100;
  currency = "INR";
  due_date = 5000;
}

abbrev pub approve_command : ApproveInvoiceCommand
approve_command = record { invoice_id = 10; buyer_id = 2; buyer_signature = "signed-by-buyer" }

abbrev pub request_command : RequestFinancingCommand
request_command = record { invoice_id = 10; supplier_id = 1 }

abbrev pub signals : AnomalySignals
signals = record {
  invoice_id = 10;
  buyer_id = 2;
  supplier_id = 1;
  amount_cents = 100;
  due_date = 5000;
  submitted_at = 1000;
  avg_invoice_amount_cents = 100;
  days_until_due = 40;
  prior_default_count = 0;
}

abbrev pub documents : ThreeWayMatchInput
documents = record {
  invoice_id = 10;
  invoice_amount_cents = 100;
  po_amount_cents = 100;
  delivery_amount_cents = 100;
  po_number = "PO-1";
  delivery_receipt_id = "DR-1";
}

abbrev pub assess_command : AssessInvoiceRiskCommand
assess_command = record {
  invoice_id = 10;
  three_way_match_input = documents;
  anomaly_signals = signals;
}

abbrev pub van_command : CreateVanCommand
van_command = record { invoice_id = 10; expected_amount_cents = 90 }

abbrev pub payment_command : ℕ → String → RecordPaymentCommand
payment_command amount key = record {
  account_number = "VAN-1";
  amount_cents = amount;
  idempotency_key = key;
  paid_at = 2000;
}

-- The invoice up to its account.
abbrev pub calls_before_payment : List (Call × List Bool)
calls_before_payment =
    (submit submit_command 1 (given 10), [])
    ∷ (approve approve_command 2 (given 11), [])
    ∷ (request request_command 1 (given 12), [])
    ∷ (assess assess_command 3 (given 13), [])
    ∷ (open_account van_command "VAN-1" (given 14), [])
    ∷ []

-- One payment whose COMMIT fails, its retry, and a last one that settles the account.
abbrev pub calls_of_payment : List (Call × List Bool)
calls_of_payment =
    (
      pay (payment_command 40 "k1") (given 15),
      false ∷ false ∷ false ∷ false ∷ false ∷ false ∷ true ∷ [],
    )
    ∷ (pay (payment_command 40 "k1") (given 16), [])
    ∷ (pay (payment_command 50 "k2") (given 17), [])
    ∷ []

abbrev pub invoice_with : InvoiceStatus → Invoice
invoice_with status = record {
  id = 10;
  invoice_number = "INV-1";
  supplier_id = 1;
  buyer_id = 2;
  amount_cents = 100;
  currency = "INR";
  due_date = 5000;
  status = status;
  buyer_signature = none;
  created_at = 1000;
  updated_at = 1000;
}

abbrev pub account : VirtualAccount
account = record {
  id = 14;
  invoice_id = 10;
  account_number = "VAN-1";
  ifsc_code = "YESB0CMSNOC";
  expected_amount_cents = 90;
  received_amount_cents = 0;
  status = active;
  expires_at = 7776001000;
  created_at = 1000;
}

-- An invoice with a status, and no account.
abbrev pub tables_with : InvoiceStatus → Tables
tables_with status = record start { invoices = invoice_with status ∷ [] }

-- With an account that was paid nothing.
abbrev pub tables_to_pay : Tables
tables_to_pay = record start {
  invoices = invoice_with financing_requested ∷ [];
  virtual_accounts = account ∷ [];
}

-- An entry of another account.
abbrev pub foreign_entry : LedgerEntry
foreign_entry = record {
  id = 3;
  virtual_account_id = 4;
  entry_type = credit;
  amount_cents = 5;
  description = "";
  idempotency_key = "k1";
  created_at = 0;
}

abbrev pub tables_with_foreign_entry : Tables
tables_with_foreign_entry = record tables_to_pay { ledger_entries = foreign_entry ∷ [] }
