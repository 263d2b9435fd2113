-- ===== src/Van/Ledger/Requests.antt =====
-- The transactions of the service keep the books.
use vanguard_settlement_engi.Base.{
  String, Bool, true, false, ◌≡◌, refl, sym, subst, arith, find?, some, leb, if◌then◌else◌,
}
use vanguard_settlement_engi.Domain.{VirtualAccount, Invoice, repaid}
use vanguard_settlement_engi.Database.{Tables, Generated}
use vanguard_settlement_engi.Database.Hoare.{Holds, then_stmt-Holds, Holds-weaken, return_stmt}
use vanguard_settlement_engi.Database.Atomic.{then_stmt}
use vanguard_settlement_engi.Repositories.Events
use vanguard_settlement_engi.Repositories.Events.{CreateEventInput, new_event}
use vanguard_settlement_engi.Repositories.Invoices.{set_status}
use vanguard_settlement_engi.Repositories.Vans.{
  new_entry, has_id, append_ledger_entry, update_received_amount, settle_account, create, credited,
  closed,
}
use vanguard_settlement_engi.Repositories.Effects.{
  Entered, append_ledger_entry-Holds, Returns, update_received_amount-Holds, settle_account-Holds,
  Opened, create-Holds, Appended, append-Holds,
}
use vanguard_settlement_engi.Van.Service.{Texts, RecordPaymentCommand, CreateVanCommand, set_repaid}
use vanguard_settlement_engi.Van.Statements.{
  payment_stmt, settle_if_full, settlement_stmt, opening_stmt, credit_input, van_input,
  advance_input,
}
use vanguard_settlement_engi.Van.Ledger.{IsBalanced}
use vanguard_settlement_engi.Van.Ledger.Writes.{
  IsHalfPaid, entered-IsHalfPaid, entered-IsBalanced, IsPaid, credited-IsPaid, short-IsBalanced,
  closed-IsBalanced, opened-IsBalanced, IsBalanced-elsewhere,
}

-- The books are kept, whatever the statement returns.
abbrev pub Keeps : {A : Type 0} → A → Tables → Type 0
Keeps _ t = IsBalanced t

-- An event does not touch the books.
pub append-Keeps :
    (input : CreateEventInput) (given : Generated) (t : Tables)
    → IsBalanced t
    → Holds Keeps (Events.append input given t)
append-Keeps input given t h =
    Holds-weaken (Appended input given t) Keeps (Events.append input given t)
      (append-Holds input given t)
      λ e t' (same, _). subst IsBalanced (sym same) (IsBalanced-elsewhere t t.invoices _ h)

settlement_stmt-Keeps :
    (given : Generated) (van : VirtualAccount) (t : Tables)
    → IsBalanced (closed van.id t)
    → Holds Keeps (settlement_stmt given van t)
unfolding set_repaid
settlement_stmt-Keeps given van t h =
    then_stmt-Holds (Returns van.id (closed van.id t)) Keeps (settle_account van.id) _ t
      (settle_account-Holds van.id t)
      λ u t' (same, _).
        let t'' = set_status van.invoice_id repaid given.now t' in
        then_stmt-Holds Keeps Keeps (Events.append _ given) (λ _. return_stmt u) t''
          (append-Keeps _ given t'' (
            IsBalanced-elsewhere t' t''.invoices t'.invoice_events (subst IsBalanced (sym same) h)))
          (λ _ _ k. k)

module _ (given : Generated) (van u : VirtualAccount) (t : Tables) (h : IsPaid van.id t)
    (found : find? (has_id van.id) t.virtual_accounts ≡ some u) where
  settle_if_full-of :
      (b : Bool)
      → leb u.expected_amount_cents u.received_amount_cents ≡ b
      → Holds {A = VirtualAccount × Bool} Keeps (
          (if b
              then then_stmt (settlement_stmt given van) (λ v. return_stmt (v, true))
              else return_stmt (u, false))
            t)
  settle_if_full-of true e =
      then_stmt-Holds Keeps Keeps (settlement_stmt given van) (λ v. return_stmt (v, true)) t
        (settlement_stmt-Keeps given van t (closed-IsBalanced van.id t u h found (ground arith)))
        (λ _ _ k. k)
  settle_if_full-of false e = short-IsBalanced van.id t u h found (ground arith)

  settle_if_full-Keeps : Holds Keeps (settle_if_full given van u t)
  settle_if_full-Keeps =
      settle_if_full-of (leb u.expected_amount_cents u.received_amount_cents) refl

module _ (texts : Texts) where
  pub payment_stmt-Keeps :
      (cmd : RecordPaymentCommand) (given : Generated) (van : VirtualAccount) (t : Tables)
      → IsBalanced t
      → Holds Keeps (payment_stmt texts cmd given van t)
  payment_stmt-Keeps cmd given van t h =
      let input = credit_input texts cmd van.id in
      let entry = new_entry input given in
      then_stmt-Holds (Entered input given t) Keeps (append_ledger_entry input given) _ t
        (append_ledger_entry-Holds input given t)
        λ _ t₁ (same₁, fresh, known).
          let paid = credited van.id cmd.amount_cents t₁ in
          let half =
            subst (IsHalfPaid van.id cmd.amount_cents) (sym same₁)
              (entered-IsHalfPaid t entry h fresh known refl) in
          then_stmt-Holds (Returns van.id paid) Keeps
            (update_received_amount van.id cmd.amount_cents) (settle_if_full given van) t₁
            (update_received_amount-Holds van.id cmd.amount_cents t₁)
            λ u t₂ (same₂, found).
              subst (λ x. Holds Keeps (settle_if_full given van u x)) (sym same₂)
                (settle_if_full-Keeps given van u paid
                  (credited-IsPaid van.id cmd.amount_cents t₁ half) found)

  pub opening_stmt-Keeps :
      (cmd : CreateVanCommand) (account_number : String) (given : Generated) (invoice : Invoice)
      (t : Tables)
      → IsBalanced t
      → Holds Keeps (opening_stmt texts cmd account_number given invoice t)
  opening_stmt-Keeps cmd account_number given invoice t h =
      let input = van_input cmd account_number given in
      then_stmt-Holds (Opened input given t) Keeps (create input given) _ t
        (create-Holds input given t)
        λ van t₁ (_, same₁, expects, fresh, _).
          let advance = advance_input texts cmd invoice van.id in
          let kept =
            subst IsBalanced (sym same₁) (opened-IsBalanced input given t h expects fresh) in
          then_stmt-Holds (Entered advance given t₁) Keeps (append_ledger_entry advance given) _ t₁
            (append_ledger_entry-Holds advance given t₁)
            λ _ t₂ (same₂, new_key, known).
              then_stmt-Holds Keeps Keeps (Events.append _ given) (λ _. return_stmt van) t₂
                (append-Keeps _ given t₂ (
                  subst IsBalanced (sym same₂)
                    (entered-IsBalanced t₁ (new_entry advance given) kept new_key known refl)))
                (λ _ _ k. k)
