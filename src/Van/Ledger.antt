-- ===== src/Van/Ledger.antt =====
-- The books: what holds of the accounts and the ledger between two requests.
pub mod Writes
pub mod Requests
use vanguard_settlement_engi.Base.{
  ℕ, ◌+◌, ◌≤◌, ◌<◌, Bool, true, List, [], ◌∷◌, ◌==◌, ◌≡◌, ◌⊎◌, All, AllDistinct, if◌then◌else◌,
}
use vanguard_settlement_engi.Domain.{VirtualAccount, LedgerEntry, active, settled, credit, debit}
use vanguard_settlement_engi.Database.{Tables}
use vanguard_settlement_engi.Repositories.Vans.{has_id, has_key, van_exists}

abbrev pub credit_of : ℕ → LedgerEntry → ℕ
credit_of id e = elim e.entry_type [
  | credit ↦ if e.virtual_account_id == id then e.amount_cents else 0
  | debit ↦ 0
]

-- The sum of an account's credit entries.
abbrev pub credits : ℕ → List LedgerEntry → ℕ
credits id [] = 0
credits id (e ∷ es) = credit_of id e + credits id es

abbrev pub same_key : LedgerEntry → LedgerEntry → Bool
same_key a b = has_key a.idempotency_key b

abbrev pub same_id : VirtualAccount → VirtualAccount → Bool
same_id a b = has_id a.id b

-- Settled with what was expected, or active with less.
abbrev pub IsStatusRight : VirtualAccount → Type 0
IsStatusRight v =
    ((v.status ≡ settled) × (v.expected_amount_cents ≤ v.received_amount_cents))
    ⊎ ((v.status ≡ active) × (v.received_amount_cents < v.expected_amount_cents))

-- No idempotency key and no account is there twice, each entry is of an account that exists, each
-- account has received the sum of its credits, and it is settled exactly where that is enough.
pub record IsBalanced (t : Tables) : Type 0 where
  pub keys_distinct : AllDistinct same_key t.ledger_entries
  pub ids_distinct : AllDistinct same_id t.virtual_accounts
  pub entries_known : All (λ e. van_exists e.virtual_account_id t ≡ true) t.ledger_entries
  pub received_is_credits :
      All (λ v. v.received_amount_cents ≡ credits v.id t.ledger_entries) t.virtual_accounts
  pub statuses_right : All IsStatusRight t.virtual_accounts
