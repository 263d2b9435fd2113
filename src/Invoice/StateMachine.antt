-- ===== src/Invoice/StateMachine.antt =====
-- core/services/invoice/state-machine.ts: the transition map and the functions over it.
pub mod Graph
use vanguard_settlement_engi.Base.{
  ℕ, ⊤, if◌then◌else◌, Bool, true, false, List, [], ◌∷◌, length, any, select, ◌==◌, ◌≡◌, ◌↔◌, arith,
  refl,
}
use vanguard_settlement_engi.Errors.{Result, ok, err, invalid_transition}
use vanguard_settlement_engi.Domain.{
  InvoiceStatus, draft, submitted, buyer_approved, financing_requested, funded, repaid, defaulted,
  cancelled,
}

-- `VALID_TRANSITIONS`
unfoldable pub valid_transitions : InvoiceStatus → List InvoiceStatus
valid_transitions draft = submitted ∷ cancelled ∷ []
valid_transitions submitted = buyer_approved ∷ cancelled ∷ []
valid_transitions buyer_approved = financing_requested ∷ cancelled ∷ []
valid_transitions financing_requested = funded ∷ cancelled ∷ []
valid_transitions funded = repaid ∷ defaulted ∷ []
valid_transitions repaid = []
valid_transitions defaulted = []
valid_transitions cancelled = []

-- `===` on statuses, by their place in the enum.
abbrev pub rank : InvoiceStatus → ℕ
rank draft = 0
rank submitted = 1
rank buyer_approved = 2
rank financing_requested = 3
rank funded = 4
rank repaid = 5
rank defaulted = 6
rank cancelled = 7

abbrev pub same_status : InvoiceStatus → InvoiceStatus → Bool
same_status a b = rank a == rank b

pub same_status_iff : (a b : InvoiceStatus) → (same_status a b ≡ true) ↔ (a ≡ b)
same_status_iff a b = ground arith

-- `allowed.includes(next)`
unfoldable pub is_valid_transition : InvoiceStatus → InvoiceStatus → Bool
unfolding valid_transitions
is_valid_transition current next = any (λ s. same_status s next) (valid_transitions current)

unfoldable pub assert_valid_transition : InvoiceStatus → InvoiceStatus → Result ⊤
unfolding is_valid_transition
assert_valid_transition current next =
    if is_valid_transition current next then ok tt else err (invalid_transition current next)

-- `Object.keys(VALID_TRANSITIONS)`
unfoldable pub get_all_statuses : List InvoiceStatus
get_all_statuses =
    draft ∷ submitted ∷ buyer_approved ∷ financing_requested ∷ funded ∷ repaid ∷ defaulted
    ∷ cancelled ∷ []

unfoldable pub is_terminal_status : InvoiceStatus → Bool
unfolding valid_transitions
is_terminal_status status = length (valid_transitions status) == 0

unfoldable pub get_terminal_statuses : List InvoiceStatus
unfolding valid_transitions get_all_statuses
get_terminal_statuses = select (λ s. length (valid_transitions s) == 0) get_all_statuses
