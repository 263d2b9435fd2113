-- ===== src/Van/Payments.antt =====
-- What a payment does, whatever fails on the way: its exact writes, and that it is applied at most
-- once however often it is sent.
use vanguard_settlement_engi.Base.{
  ⊤, Bool, true, false, none, some, ◌≡◌, refl, sym, subst, ap, ◌∙◌, arith, any, find?, select,
  str_eq, trim, leb, if◌then◌else◌,
}
use vanguard_settlement_engi.Domain.{VirtualAccount, repaid, invoice_repaid}
use vanguard_settlement_engi.Errors.{
  plain, van_not_found, by_account, van_has_expired, van_is_settled, duplicate_payment,
}
use vanguard_settlement_engi.Database.{Tables, Generated}
use vanguard_settlement_engi.Database.Session.{World, connect}
use vanguard_settlement_engi.Database.Atomic.{then_stmt}
use vanguard_settlement_engi.Database.Hoare.{Holds, then_stmt-Holds, Holds-weaken, return_stmt}
use vanguard_settlement_engi.Database.Quiet.{connect-IsQuiet}
use vanguard_settlement_engi.Database.Guards.{
  Ensures, Writes, Wrote, quiet-Ensures, or_throw-Ensures, read-Ensures, throw_if-Ensures,
  pure-Ensures, >>=-Ensures, >>=-Writes, transaction-Writes,
}
use vanguard_settlement_engi.Repositories.Events
use vanguard_settlement_engi.Repositories.Events.{CreateEventInput, new_event}
use vanguard_settlement_engi.Repositories.Invoices.{set_status}
use vanguard_settlement_engi.Repositories.Vans.{
  new_entry, has_id, has_key, of_account, append_ledger_entry, update_received_amount,
  settle_account, find_by_account_number, get_ledger_entries, credited, closed,
}
use vanguard_settlement_engi.Repositories.Effects.{
  Entered, entered, append_ledger_entry-Holds, Returns, update_received_amount-Holds,
  settle_account-Holds, Appended, appended, append-Holds,
}
use vanguard_settlement_engi.Repositories.Reads.{van_by_account-Reads, entries-Reads}
use vanguard_settlement_engi.Van.Service.{
  Texts, RecordPaymentCommand, is_expired, is_settled, set_repaid, check_payment, apply_payment,
  record_payment, payment, report, as_duplicate,
}
use vanguard_settlement_engi.Van.Statements.{
  payment_stmt, payment-Simulates, settle_if_full, settlement_stmt, credit_input,
}
use vanguard_settlement_engi.Van.Reports.{report-IsQuiet}

-- The account settled, its invoice REPAID, and the event of it.
abbrev pub settled_tables : Generated → VirtualAccount → Tables → Tables
settled_tables given van t =
    let repaid_event : CreateEventInput = record {
      invoice_id = van.invoice_id;
      event_type = invoice_repaid;
      actor_id = none;
    } in
    appended (new_event repaid_event given)
      (set_status van.invoice_id repaid given.now (closed van.id t))

-- The entry and the increment.
abbrev pub paid_tables : Texts → RecordPaymentCommand → Generated → VirtualAccount → Tables → Tables
paid_tables texts cmd given van t =
    credited van.id cmd.amount_cents (entered (new_entry (credit_input texts cmd van.id) given) t)

-- The key was new to the whole ledger, and the tables are those with the entry and the increment,
-- settled where the row `u` then has what was expected.
abbrev pub Paid :
    Texts → RecordPaymentCommand → Generated → VirtualAccount → Tables → Tables → Type 0
Paid texts cmd given van t t' =
    (any (has_key cmd.idempotency_key) t.ledger_entries ≡ false)
    × ((u : VirtualAccount) × (find? (has_id van.id)
            (paid_tables texts cmd given van t).virtual_accounts
          ≡ some u)
        × (t' ≡ (
            if leb u.expected_amount_cents u.received_amount_cents
            then settled_tables given van (paid_tables texts cmd given van t)
            else paid_tables texts cmd given van t)))

settlement_stmt-Holds :
    (given : Generated) (van : VirtualAccount) (t : Tables)
    → Holds {A = VirtualAccount}
        (λ _ t'. t' ≡ settled_tables given van t)
        (settlement_stmt given van t)
unfolding set_repaid
settlement_stmt-Holds given van t =
    let input : CreateEventInput = record {
      invoice_id = van.invoice_id;
      event_type = invoice_repaid;
      actor_id = none;
    } in
    then_stmt-Holds (Returns van.id (closed van.id t)) (λ _ t'. t' ≡ settled_tables given van t)
      (settle_account van.id) _ t (settle_account-Holds van.id t)
      λ u t₁ (same₁, _).
        let t₂ = set_status van.invoice_id repaid given.now t₁ in
        then_stmt-Holds (Appended input given t₂) (λ _ t'. t' ≡ settled_tables given van t)
          (Events.append input given) (λ _. return_stmt u) t₂ (append-Holds input given t₂)
          λ e t₃ (same₃, _).
            same₃
            ∙ ap
                (λ x.
                  appended (new_event input given) (set_status van.invoice_id repaid given.now x))
                same₁

module _ (given : Generated) (van u : VirtualAccount) (t : Tables) where
  settle_if_full-of :
      (b : Bool)
      → Holds {A = VirtualAccount × Bool}
          (λ _ t'. t' ≡ (if b then settled_tables given van t else t))
          ((if b
              then then_stmt (settlement_stmt given van) (λ v. return_stmt (v, true))
              else return_stmt (u, false))
            t)
  settle_if_full-of true =
      then_stmt-Holds (λ _ t'. t' ≡ settled_tables given van t)
        (λ _ t'. t' ≡ settled_tables given van t) (settlement_stmt given van)
        (λ v. return_stmt (v, true)) t (settlement_stmt-Holds given van t) (λ _ _ k. k)
  settle_if_full-of false = refl

module _ (texts : Texts) (cmd : RecordPaymentCommand) (given : Generated) where
  pub payment_stmt-Paid :
      (van : VirtualAccount) (t : Tables)
      → Holds {A = VirtualAccount × Bool}
          (λ _ t'. Paid texts cmd given van t t')
          (payment_stmt texts cmd given van t)
  payment_stmt-Paid van t =
      let input = credit_input texts cmd van.id in
      let Q : VirtualAccount × Bool → Tables → Type 0 = λ _ t'. Paid texts cmd given van t t' in
      then_stmt-Holds (Entered input given t) Q (append_ledger_entry input given) _ t
        (append_ledger_entry-Holds input given t)
        λ _ t₁ (same₁, fresh, _).
          then_stmt-Holds (Returns van.id (credited van.id cmd.amount_cents t₁)) Q
            (update_received_amount van.id cmd.amount_cents) (settle_if_full given van) t₁
            (update_received_amount-Holds van.id cmd.amount_cents t₁)
            λ u t₂ (same₂, found).
              let same = same₂ ∙ ap (credited van.id cmd.amount_cents) same₁ in
              subst (λ x. Holds Q (settle_if_full given van u x)) (sym same)
                (Holds-weaken _ Q (settle_if_full given van u (paid_tables texts cmd given van t))
                  (settle_if_full-of given van u (paid_tables texts cmd given van t)
                    (leb u.expected_amount_cents u.received_amount_cents))
                  (λ _ t' k. (
                    fresh,
                    (
                      u,
                      subst
                          (λ x.
                            find? (has_id van.id)
                              (credited van.id cmd.amount_cents x).virtual_accounts
                            ≡ some u)
                          same₁ found,
                      k,
                    ),
                  )))

  -- What `check_payment` has seen of the account that it returns.
  abbrev pub Accepted : VirtualAccount → Tables → Type 0
  Accepted van t =
      (find? (λ v. str_eq v.account_number cmd.account_number) t.virtual_accounts ≡ some van)
      × (is_expired van.status ≡ false)
      × (is_settled van.status ≡ false)
      × (any (λ e. str_eq (trim e.idempotency_key) (trim cmd.idempotency_key))
            (select (of_account van.id) t.ledger_entries)
          ≡ false)

  module _ (P : Tables → Type 0) where
    pub check_payment-Ensures : Ensures P (check_payment cmd) (λ van t. P t × Accepted van t)
    unfolding check_payment find_by_account_number get_ledger_entries
    check_payment-Ensures =
        >>=-Ensures _ _ _ _ _ (read-Ensures P _ (van_by_account-Reads cmd.account_number)) λ found.
          >>=-Ensures _ _ _ _ _
            (or_throw-Ensures _ found (van_not_found (by_account cmd.account_number)))
            λ van.
              >>=-Ensures _ _ _ _ _
                (throw_if-Ensures _ (is_expired van.status)
                  (plain (van_has_expired cmd.account_number)))
                λ _. >>=-Ensures _ _ _ _ _ (read-Ensures _ _ (entries-Reads van.id)) λ entries.
                  >>=-Ensures _ _ _ _ _
                    (throw_if-Ensures _
                      (any (λ e. str_eq (trim e.idempotency_key) (trim cmd.idempotency_key))
                        entries)
                      (duplicate_payment cmd.idempotency_key))
                    λ _.
                      >>=-Ensures _ _ _ _ _
                        (throw_if-Ensures _ (is_settled van.status)
                          (plain (van_is_settled cmd.account_number)))
                        λ _.
                          pure-Ensures _ van _
                            (λ t ((((((p, row), is), live), read), fresh), open_still).
                              (p, (ground arith, live, open_still, ground arith)))

  pub record_payment-Writes :
      Writes
        (λ _. ⊤)
        (record_payment texts cmd given)
        (λ t t'. (van : VirtualAccount) × Accepted van t × Paid texts cmd given van t t')
  unfolding record_payment apply_payment
  record_payment-Writes =
      >>=-Writes _ (check_payment cmd) _ (apply_payment texts cmd given) _
        (check_payment-Ensures (λ _. ⊤))
        λ van. >>=-Writes _ _ _ _ _ (quiet-Ensures _ connect connect-IsQuiet) λ _.
          transaction-Writes _ (payment texts cmd given van) (payment_stmt texts cmd given van)
            (report van) (as_duplicate cmd.idempotency_key) _
            (payment-Simulates texts cmd given van) (report-IsQuiet van)
            (λ t (_, accepted).
              Holds-weaken _ _ (payment_stmt texts cmd given van t) (payment_stmt-Paid van t)
                (λ _ _ paid. (van, accepted, paid)))

-- Whatever fails, a payment that returns was for the account with its number, neither expired nor
-- settled and with no entry of the key, and the tables are exactly those with its one entry, the
-- increment, and the settlement where the account then has what was expected. A payment that throws
-- has written all of that or nothing.
pub record_payment-Paid :
    (texts : Texts) (cmd : RecordPaymentCommand) (given : Generated) (w : World)
    → w.tx ≡ none
    → Wrote
        (λ t t'.
          (van : VirtualAccount) × Accepted texts cmd given van t × Paid texts cmd given van t t')
        w
        (record_payment texts cmd given w)
record_payment-Paid texts cmd given w closed =
    (record_payment-Writes texts cmd given).wrote w closed tt
