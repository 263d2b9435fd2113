-- ===== src/System/Payments.antt =====
-- The transactions of `VanService` keep the audit trail along with the books.
use vanguard_settlement_engi.Base.{
  String, Bool, true, false, refl, sym, subst, ◌∙◌, none, leb, if◌then◌else◌,
}
use vanguard_settlement_engi.Domain.{VirtualAccount, Invoice, repaid, invoice_repaid, van_created}
use vanguard_settlement_engi.Database.{Tables, Generated}
use vanguard_settlement_engi.Database.Hoare.{
  Holds, then_stmt-Holds, Holds-weaken, return_stmt, both-Holds,
}
use vanguard_settlement_engi.Database.Atomic.{then_stmt}
use vanguard_settlement_engi.Repositories.Events
use vanguard_settlement_engi.Repositories.Events.{CreateEventInput, new_event}
use vanguard_settlement_engi.Repositories.Invoices.{set_status, with_status}
use vanguard_settlement_engi.Repositories.Vans.{
  append_ledger_entry, update_received_amount, settle_account, create, credited, closed,
}
use vanguard_settlement_engi.Repositories.Effects.{
  Entered, append_ledger_entry-Holds, Returns, update_received_amount-Holds, settle_account-Holds,
  Opened, create-Holds, Appended, append-Holds,
}
use vanguard_settlement_engi.Invoice.History.{IsReplayed}
use vanguard_settlement_engi.Invoice.History.Writes.{
  moved-IsReplayed, noted-IsReplayed, exists-update, IsReplayed-elsewhere,
}
use vanguard_settlement_engi.Van.Service.{Texts, RecordPaymentCommand, CreateVanCommand, set_repaid}
use vanguard_settlement_engi.Van.Statements.{
  payment_stmt, settle_if_full, settlement_stmt, opening_stmt, credit_input, van_input,
  advance_input,
}
use vanguard_settlement_engi.Van.Ledger.{IsBalanced}
use vanguard_settlement_engi.Van.Ledger.Requests.{payment_stmt-Keeps, opening_stmt-Keeps}
use vanguard_settlement_engi.System.{IsConsistent}
use vanguard_settlement_engi.System.Statements.{Keeps}

abbrev Replays : {A : Type 0} → A → Tables → Type 0
Replays _ t = IsReplayed t

abbrev Books : {A : Type 0} → A → Tables → Type 0
Books _ t = IsBalanced t

settlement_stmt-Replays :
    (given : Generated) (van : VirtualAccount) (t : Tables)
    → IsReplayed t
    → Holds Replays (settlement_stmt given van t)
unfolding set_repaid
settlement_stmt-Replays given van t h =
    let input : CreateEventInput = record {
      invoice_id = van.invoice_id;
      event_type = invoice_repaid;
      actor_id = none;
    } in
    then_stmt-Holds (Returns van.id (closed van.id t)) Replays (settle_account van.id) _ t
      (settle_account-Holds van.id t)
      λ u t₁ (same₁, _).
        let t₂ = set_status van.invoice_id repaid given.now t₁ in
        let kept = subst IsReplayed (sym same₁) (IsReplayed-elsewhere t _ t.ledger_entries h) in
        then_stmt-Holds (Appended input given t₂) Replays (Events.append input given)
          (λ _. return_stmt u) t₂ (append-Holds input given t₂)
          λ e t₃ (same₃, known). subst IsReplayed (sym same₃) (
            moved-IsReplayed t₁ (new_event input given) kept
              (sym (
                  exists-update van.invoice_id van.invoice_id (with_status repaid given.now) t₁
                    (λ i. refl))
                ∙ known)
              repaid given.now (λ s. refl))

module _ (given : Generated) (van u : VirtualAccount) (t : Tables) (h : IsReplayed t) where
  settle_if_full-of :
      (b : Bool)
      → Holds {A = VirtualAccount × Bool} Replays (
          (if b
              then then_stmt (settlement_stmt given van) (λ v. return_stmt (v, true))
              else return_stmt (u, false))
            t)
  settle_if_full-of true =
      then_stmt-Holds Replays Replays (settlement_stmt given van) (λ v. return_stmt (v, true)) t
        (settlement_stmt-Replays given van t h) (λ _ _ k. k)
  settle_if_full-of false = h

module _ (texts : Texts) where
  payment_stmt-Replays :
      (cmd : RecordPaymentCommand) (given : Generated) (van : VirtualAccount) (t : Tables)
      → IsReplayed t
      → Holds Replays (payment_stmt texts cmd given van t)
  payment_stmt-Replays cmd given van t h =
      let input = credit_input texts cmd van.id in
      then_stmt-Holds (Entered input given t) Replays (append_ledger_entry input given) _ t
        (append_ledger_entry-Holds input given t)
        λ _ t₁ (same₁, _, _).
          let kept₁ =
            subst IsReplayed (sym same₁) (IsReplayed-elsewhere t t.virtual_accounts _ h) in
          then_stmt-Holds (Returns van.id (credited van.id cmd.amount_cents t₁)) Replays
            (update_received_amount van.id cmd.amount_cents) (settle_if_full given van) t₁
            (update_received_amount-Holds van.id cmd.amount_cents t₁)
            λ u t₂ (same₂, _).
              settle_if_full-of given van u t₂
                (subst IsReplayed (sym same₂) (IsReplayed-elsewhere t₁ _ t₁.ledger_entries kept₁))
                (leb u.expected_amount_cents u.received_amount_cents)

  opening_stmt-Replays :
      (cmd : CreateVanCommand) (account_number : String) (given : Generated) (invoice : Invoice)
      (t : Tables)
      → IsReplayed t
      → Holds Replays (opening_stmt texts cmd account_number given invoice t)
  opening_stmt-Replays cmd account_number given invoice t h =
      let input = van_input cmd account_number given in
      let event : CreateEventInput = record {
        invoice_id = cmd.invoice_id;
        event_type = van_created;
        actor_id = none;
      } in
      then_stmt-Holds (Opened input given t) Replays (create input given) _ t
        (create-Holds input given t)
        λ van t₁ (_, same₁, _, _, _).
          let advance = advance_input texts cmd invoice van.id in
          let kept₁ = subst IsReplayed (sym same₁) (IsReplayed-elsewhere t _ t.ledger_entries h) in
          then_stmt-Holds (Entered advance given t₁) Replays (append_ledger_entry advance given) _
            t₁ (append_ledger_entry-Holds advance given t₁)
            λ _ t₂ (same₂, _, _).
              let kept₂ =
                subst IsReplayed (sym same₂)
                  (IsReplayed-elsewhere t₁ t₁.virtual_accounts _ kept₁) in
              then_stmt-Holds (Appended event given t₂) Replays (Events.append event given)
                (λ _. return_stmt van) t₂ (append-Holds event given t₂)
                λ _ t₃ (same₃, known).
                  subst IsReplayed (sym same₃)
                    (noted-IsReplayed t₂ (new_event event given) kept₂ known (λ s. refl))

  pub payment_stmt-IsConsistent :
      (cmd : RecordPaymentCommand) (given : Generated) (van : VirtualAccount) (t : Tables)
      → IsConsistent t
      → Holds Keeps (payment_stmt texts cmd given van t)
  payment_stmt-IsConsistent cmd given van t h =
      Holds-weaken (λ _ t'. IsBalanced t' × IsReplayed t') Keeps
        (payment_stmt texts cmd given van t)
        (both-Holds Books Replays (payment_stmt texts cmd given van t)
          (payment_stmt-Keeps texts cmd given van t h.balanced)
          (payment_stmt-Replays cmd given van t h.replayed))
        (λ _ _ (b, r). record { balanced = b; replayed = r })

  pub opening_stmt-IsConsistent :
      (cmd : CreateVanCommand) (account_number : String) (given : Generated) (invoice : Invoice)
      (t : Tables)
      → IsConsistent t
      → Holds Keeps (opening_stmt texts cmd account_number given invoice t)
  opening_stmt-IsConsistent cmd account_number given invoice t h =
      Holds-weaken (λ _ t'. IsBalanced t' × IsReplayed t') Keeps
        (opening_stmt texts cmd account_number given invoice t)
        (both-Holds Books Replays (opening_stmt texts cmd account_number given invoice t)
          (opening_stmt-Keeps texts cmd account_number given invoice t h.balanced)
          (opening_stmt-Replays cmd account_number given invoice t h.replayed))
        (λ _ _ (b, r). record { balanced = b; replayed = r })
