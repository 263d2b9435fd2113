-- ===== src/Invoice/StateMachine/Graph.antt =====
-- The lifecycle diagram of README.md as a relation, and what the transition map does on it.
use vanguard_settlement_engi.Base.{
  ℕ, ◌<◌, ◌≤◌, Bool, true, false, List, ◌∷◌, [], ◌≡◌, ◌↔◌, refl, arith, ◌&&◌, length, any,
}
use vanguard_settlement_engi.Domain.{
  InvoiceStatus, draft, submitted, buyer_approved, financing_requested, funded, repaid, defaulted,
  cancelled,
}
use vanguard_settlement_engi.Invoice.StateMachine.{
  valid_transitions, is_valid_transition, is_terminal_status, get_all_statuses,
  get_terminal_statuses, rank, same_status,
}

-- One edge of the diagram.
infix 40 ◌⟶◌ ◌⟶*◌
pub data ◌⟶◌ : InvoiceStatus → InvoiceStatus → Type 0 where
  submit : draft ⟶ submitted
  approve : submitted ⟶ buyer_approved
  request : buyer_approved ⟶ financing_requested
  fund : financing_requested ⟶ funded
  repay : funded ⟶ repaid
  default : funded ⟶ defaulted
  cancel : {s : InvoiceStatus} → rank s < 4 → s ⟶ cancelled

pub data ◌⟶*◌ : InvoiceStatus → InvoiceStatus → Type 0 where
  here : {s : InvoiceStatus} → s ⟶* s
  step : {s t u : InvoiceStatus} → s ⟶ t → t ⟶* u → s ⟶* u

ruleset edges = (submit, approve, request, fund, repay, default)

⟶-is_valid : {s t : InvoiceStatus} → s ⟶ t → is_valid_transition s t ≡ true
unfolding is_valid_transition
⟶-is_valid submit = refl
⟶-is_valid approve = refl
⟶-is_valid request = refl
⟶-is_valid fund = refl
⟶-is_valid repay = refl
⟶-is_valid default = refl
⟶-is_valid {s} (cancel h) = ground arith

is_valid-⟶ : (s t : InvoiceStatus) → is_valid_transition s t ≡ true → s ⟶ t
unfolding is_valid_transition
is_valid-⟶ s t h = grind (arith, edges, cancel)

-- The map accepts a transition exactly when it is an edge of the diagram.
is_valid_transition_iff : (s t : InvoiceStatus) → (is_valid_transition s t ≡ true) ↔ (s ⟶ t)
is_valid_transition_iff s t = (is_valid-⟶ s t, ⟶-is_valid)

-- A status is terminal exactly when no transition from it is accepted, and the list of terminal
-- statuses holds exactly those.
is_terminal_status_iff :
    (s : InvoiceStatus)
    → ((is_terminal_status s ≡ true) ↔ ((t : InvoiceStatus) → is_valid_transition s t ≡ false))
      × (any (λ t. same_status t s) get_terminal_statuses ≡ is_terminal_status s)
unfolding is_terminal_status is_valid_transition valid_transitions get_terminal_statuses
    get_all_statuses
is_terminal_status_iff s = ((none_from s, some_from s), listed s)
  where
    none_from :
        (s : InvoiceStatus)
        → is_terminal_status s ≡ true
        → (t : InvoiceStatus) → is_valid_transition s t ≡ false
    none_from s h t = ground arith

    some_from :
        (s : InvoiceStatus)
        → ((t : InvoiceStatus) → is_valid_transition s t ≡ false)
        → is_terminal_status s ≡ true
    some_from draft h = absurd (cc (h cancelled))
    some_from submitted h = absurd (cc (h cancelled))
    some_from buyer_approved h = absurd (cc (h cancelled))
    some_from financing_requested h = absurd (cc (h cancelled))
    some_from funded h = absurd (cc (h repaid))
    some_from repaid h = refl
    some_from defaulted h = refl
    some_from cancelled h = refl

    listed :
        (s : InvoiceStatus)
        → any (λ t. same_status t s) get_terminal_statuses ≡ is_terminal_status s
    listed s = ground arith

-- Each of the statuses after the first is accepted behind the one before it.
abbrev pub is_valid_path : InvoiceStatus → List InvoiceStatus → Bool
is_valid_path s [] = true
is_valid_path s (t ∷ ts) = is_valid_transition s t && is_valid_path t ts

-- The most transitions that can follow a status.
abbrev height : InvoiceStatus → ℕ
height draft = 5
height submitted = 4
height buyer_approved = 3
height financing_requested = 2
height funded = 1
height _ = 0

height-falls : (s t : InvoiceStatus) → is_valid_transition s t ≡ true → height t < height s
unfolding is_valid_transition valid_transitions
height-falls s t h = ground arith

path_height :
    (s : InvoiceStatus) (path : List InvoiceStatus)
    → is_valid_path s path ≡ true
    → length path ≤ height s
path_height s [] h = omega arith
path_height s (t ∷ path) h = ground (arith, height-falls s t, path_height t path)

-- No lifecycle goes on for more than five transitions, so none returns to a status it has left.
pub is_valid_path-bound :
    (s : InvoiceStatus) (path : List InvoiceStatus) → is_valid_path s path ≡ true → length path ≤ 5
is_valid_path-bound s path h = ground (arith, path_height s path h)
