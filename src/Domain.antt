-- ===== src/Domain.antt =====
-- core/domain/entities.ts and core/domain/auth.types.ts: the rows of the tables and the enums.
-- A UUID is a number: the program only compares it. A date is a number of milliseconds. An amount is
-- a number of paise. `payload` of an event is left out, and its `event_type` is an enum.
use vanguard_settlement_engi.Base.{ℕ, String, Option}

pub data OrgType : Type 0 where
  buyer supplier platform : OrgType

pub data KycStatus : Type 0 where
  pending verified rejected : KycStatus

pub data OrgRole : Type 0 where
  supplier buyer platform_admin : OrgRole

pub data InvoiceStatus : Type 0 where
  draft submitted buyer_approved financing_requested funded repaid defaulted cancelled :
      InvoiceStatus

pub data VanStatus : Type 0 where
  active settled expired : VanStatus

pub data EntryType : Type 0 where
  debit credit : EntryType

pub InvoiceStatus-discrete : Discrete InvoiceStatus
InvoiceStatus-discrete = hlevel

pub record Organisation : Type 0 where
  pub id : ℕ
  pub legal_name : String
  pub gstin : Option String
  pub org_type : OrgType
  pub kyc_status : KycStatus
  pub created_at : ℕ
  pub updated_at : ℕ

pub record Invoice : Type 0 where
  pub id : ℕ
  pub invoice_number : String
  pub supplier_id : ℕ
  pub buyer_id : ℕ
  pub amount_cents : ℕ
  pub currency : String
  pub due_date : ℕ
  pub status : InvoiceStatus
  pub buyer_signature : Option String
  pub created_at : ℕ
  pub updated_at : ℕ

pub record VirtualAccount : Type 0 where
  pub id : ℕ
  pub invoice_id : ℕ
  pub account_number : String
  pub ifsc_code : String
  pub expected_amount_cents : ℕ
  pub received_amount_cents : ℕ
  pub status : VanStatus
  pub expires_at : ℕ
  pub created_at : ℕ

pub record LedgerEntry : Type 0 where
  pub id : ℕ
  pub virtual_account_id : ℕ
  pub entry_type : EntryType
  pub amount_cents : ℕ
  pub description : String
  pub idempotency_key : String
  pub created_at : ℕ

-- The `event_type` texts that the services write.
pub data EventType : Type 0 where
  invoice_submitted invoice_buyer_approved invoice_financing_requested : EventType
  van_created invoice_repaid : EventType
  risk_assessment_approve risk_assessment_reject risk_assessment_manual_review : EventType

pub record InvoiceEvent : Type 0 where
  pub id : ℕ
  pub invoice_id : ℕ
  pub event_type : EventType
  pub actor_id : Option ℕ
  pub occurred_at : ℕ

pub record JwtPayload : Type 0 where
  pub sub : ℕ
  pub email : String
  pub role : OrgRole
  pub org_id : ℕ
