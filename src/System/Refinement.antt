-- ===== src/System/Refinement.antt =====
-- The services implement the abstract book: each transaction is one of its steps or none.
pub mod Payment
use vanguard_settlement_engi.Base.{
  ℕ, ◌+◌, ◌<◌, String, Bool, true, false, ◌||◌, Option, none, some, List, [], ◌∷◌, ◌++◌, ◌==◌, ◌≡◌,
  refl, sym, subst, ap, ◌∙◌, arith, str_eq, find?, any, any-append, update_where, leb, Bool-cases,
  inl, inr, if◌then◌else◌, find?-none,
}
use mathlib.Core.Path.{fun_ext}
use vanguard_settlement_engi.Domain.{VirtualAccount, LedgerEntry, Invoice, van_created}
use vanguard_settlement_engi.Database.Hoare.{Holds, then_stmt-Holds, Holds-weaken, return_stmt}
use vanguard_settlement_engi.Repositories.Events
use vanguard_settlement_engi.Repositories.Events.{CreateEventInput, new_event}
use vanguard_settlement_engi.Van.Service.{Texts, RecordPaymentCommand, CreateVanCommand}
use vanguard_settlement_engi.Van.Statements.{
  payment_stmt, opening_stmt, credit_input, van_input, advance_input,
}
use vanguard_settlement_engi.Van.Payments.{Paid, paid_tables, settled_tables, payment_stmt-Paid}
use vanguard_settlement_engi.Van.Openings.{opened_tables}
use vanguard_settlement_engi.System.Calls.{IsKept}
use vanguard_settlement_engi.System.Elsewhere.{by_writes-IsKept}
use vanguard_settlement_engi.System.Run.{Call, run, run-Keeps}
use vanguard_settlement_engi.Database.{Tables, Generated}
use vanguard_settlement_engi.Repositories.Vans.{
  has_id, has_key, add_received, mark_settled, credited, closed, new_entry, new_van, clashes,
  create, append_ledger_entry,
}
use vanguard_settlement_engi.Repositories.Effects.{
  entered, Entered, append_ledger_entry-Holds, Opened, create-Holds, Appended, appended,
  append-Holds,
}
use vanguard_settlement_engi.System.Book.{
  Balance, Book, received_more, with_payment, with_account, Step, open_account, pay, Steps,
  none_yet, further,
}

abbrev pub balance_of : Option VirtualAccount → Option Balance
balance_of none = none
balance_of (some v) =
    some (record { expected = v.expected_amount_cents; received = v.received_amount_cents })

-- What the tables say of the book.
abbrev pub book : Tables → Book
book t = record {
  balance = λ k. balance_of (find? (has_id k) t.virtual_accounts);
  is_used = λ k. any (has_key k) t.ledger_entries;
}

balance_of-add_received :
    (k id amount : ℕ) (vs : List VirtualAccount)
    → balance_of (find? (has_id k) (update_where (has_id id) (add_received amount) vs)) ≡ (
        if k == id
        then received_more amount (balance_of (find? (has_id k) vs))
        else balance_of (find? (has_id k) vs))
balance_of-add_received k id amount [] = ground arith
balance_of-add_received k id amount (v ∷ vs) =
    ground (arith, balance_of-add_received k id amount vs)

balance_of-mark_settled :
    (k id : ℕ) (vs : List VirtualAccount)
    → balance_of (find? (has_id k) (update_where (has_id id) mark_settled vs))
      ≡ balance_of (find? (has_id k) vs)
balance_of-mark_settled k id [] = refl
balance_of-mark_settled k id (v ∷ vs) = ground (arith, balance_of-mark_settled k id vs)

balance_of-append :
    (k : ℕ) (vs : List VirtualAccount) (v : VirtualAccount)
    → find? (has_id v.id) vs ≡ none
    → balance_of (find? (has_id k) (vs ++ v ∷ []))
      ≡ (if k == v.id then balance_of (some v) else balance_of (find? (has_id k) vs))
balance_of-append k [] v new = ground arith
balance_of-append k (x ∷ vs) v new = ground (arith, balance_of-append k vs v)

is_used-append :
    (k : String) (es : List LedgerEntry) (e : LedgerEntry)
    → any (has_key k) (es ++ e ∷ []) ≡ (any (has_key k) es || str_eq e.idempotency_key k)
is_used-append k es e = ground (arith, any-append (has_key k) es (e ∷ []))

module _ (texts : Texts) where
  book-paid :
      (cmd : RecordPaymentCommand) (given : Generated) (van : VirtualAccount) (t : Tables)
      → book (paid_tables texts cmd given van t)
        ≡ with_payment van.id cmd.amount_cents cmd.idempotency_key (book t)
  book-paid cmd given van t = λ i. record {
    balance = λ k. balance_of-add_received k van.id cmd.amount_cents t.virtual_accounts i;
    is_used =
        λ k. is_used-append k t.ledger_entries (new_entry (credit_input texts cmd van.id) given) i;
  }

  book-settled :
      (given : Generated) (van : VirtualAccount) (t : Tables)
      → book (settled_tables given van t) ≡ book t
  book-settled given van t = λ i. record {
    balance = λ k. balance_of-mark_settled k van.id t.virtual_accounts i;
    is_used = λ k. any (has_key k) t.ledger_entries;
  }

  book-if-settled :
      (b : Bool) (given : Generated) (van : VirtualAccount) (t : Tables)
      → book (if b then settled_tables given van t else t) ≡ book t
  book-if-settled true given van t = book-settled given van t
  book-if-settled false given van t = refl

  -- An account that a payment has found in the end was there before.
  was_there :
      (id amount : ℕ) (o : Option Balance) (u : Balance)
      → (if id == id then received_more amount o else o) ≡ some u
      → (a : Balance) × (o ≡ some a)
  was_there id amount none u e = absurd (ground arith)
  was_there id amount (some a) u e = (a, refl)

  -- The account was there, the key was free, and the payment is that of the book.
  pub Paid-Pays :
      (cmd : RecordPaymentCommand) (given : Generated) (van : VirtualAccount) (t t' : Tables)
      → Paid texts cmd given van t t'
      → (a : Balance) × ((book t).balance van.id ≡ some a)
        × ((book t).is_used cmd.idempotency_key ≡ false)
        × (book t' ≡ with_payment van.id cmd.amount_cents cmd.idempotency_key (book t))
  Paid-Pays cmd given van t t' (fresh, (u, found, same)) =
      let (a, there) = was_there van.id cmd.amount_cents ((book t).balance van.id) _ (
        sym (balance_of-add_received van.id van.id cmd.amount_cents t.virtual_accounts)
        ∙ ap balance_of found) in
      (
        a,
        there,
        fresh,
        ap book same
            ∙ book-if-settled (leb u.expected_amount_cents u.received_amount_cents) given van
                (paid_tables texts cmd given van t)
            ∙ book-paid cmd given van t,
      )

  Paid-Step :
      (cmd : RecordPaymentCommand) (given : Generated) (van : VirtualAccount) (t t' : Tables)
      → Paid texts cmd given van t t'
      → Step (book t) (book t')
  Paid-Step cmd given van t t' paid =
      let (a, there, fresh, same) = Paid-Pays cmd given van t t' paid in
      pay (book t) (book t') van.id cmd.amount_cents cmd.idempotency_key a there fresh same

  book-opened :
      (cmd : CreateVanCommand) (account_number : String) (given : Generated) (invoice : Invoice)
      (t : Tables)
      → find? (has_id given.row_id) t.virtual_accounts ≡ none
      → book (opened_tables texts cmd account_number given invoice t)
        ≡ with_account given.row_id cmd.expected_amount_cents
            (advance_input texts cmd invoice given.row_id).idempotency_key
            (book t)
  book-opened cmd account_number given invoice t new = λ i. record {
    balance = λ k.
        balance_of-append k t.virtual_accounts (new_van (van_input cmd account_number given) given)
          new i;
    is_used = λ k.
        is_used-append k t.ledger_entries
          (new_entry (advance_input texts cmd invoice given.row_id) given) i;
  }

  opening_stmt-Step :
      (cmd : CreateVanCommand) (account_number : String) (given : Generated) (invoice : Invoice)
      (t : Tables)
      → Holds {A = VirtualAccount}
          (λ _ t'. Step (book t) (book t'))
          (opening_stmt texts cmd account_number given invoice t)
  opening_stmt-Step cmd account_number given invoice t =
      let input = van_input cmd account_number given in
      let event : CreateEventInput = record {
        invoice_id = cmd.invoice_id;
        event_type = van_created;
        actor_id = none;
      } in
      let Q : VirtualAccount → Tables → Type 0 = λ _ t'. Step (book t) (book t') in
      then_stmt-Holds (Opened input given t) Q (create input given) _ t (create-Holds input given t)
        λ van t₁ (is, same₁, expects, clash_free, _).
          let advance = advance_input texts cmd invoice van.id in
          then_stmt-Holds (Entered advance given t₁) Q (append_ledger_entry advance given) _ t₁
            (append_ledger_entry-Holds advance given t₁)
            λ _ t₂ (same₂, fresh, _).
              then_stmt-Holds (Appended event given t₂) Q (Events.append event given)
                (λ _. return_stmt van) t₂ (append-Holds event given t₂)
                λ _ t₃ (same₃, _).
                  let new =
                    find?-none (has_id given.row_id) (clashes input given) t.virtual_accounts
                      (λ v h. ground arith) clash_free in
                  open_account (book t) (book t₃) given.row_id cmd.expected_amount_cents
                    advance.idempotency_key (ap balance_of new) expects
                    (ap (λ x. any (has_key advance.idempotency_key) x.ledger_entries) (sym same₁)
                      ∙ fresh)
                    (ap book (
                        same₃
                        ∙ ap (appended (new_event event given)) (
                            same₂ ∙ (λ j.
                              entered (new_entry (advance_input texts cmd invoice (is j).id) given)
                                (same₁ j))))
                      ∙ book-opened cmd account_number given invoice t new)

  module _ (b : Book) where
    refines-IsKept : IsKept texts (λ t. Steps b (book t))
    refines-IsKept =
        by_writes-IsKept texts (λ t. Steps b (book t))
          (record {
            invoices = λ is t h. h;
            event = λ e t h. h;
            paid = λ cmd given van t t' h p. further h (Paid-Step cmd given van t t' p);
            opened = λ cmd account_number given invoice t h.
                Holds-weaken (λ _ t'. Step (book t) (book t')) (λ _ t'. Steps b (book t'))
                  (opening_stmt texts cmd account_number given invoice t)
                  (opening_stmt-Step cmd account_number given invoice t) (λ _ t' s. further h s);
          })

  -- Any calls of the services, whatever fails in them and however old the account is that a payment
  -- works with, move the book by steps of the abstract machine: accounts are opened empty, payments to
  -- accounts that are there add up, and each of these takes a key that was never used.
  pub run-Steps :
      (calls : List (Call × List Bool)) (t : Tables) → Steps (book t) (book (run texts calls t))
  run-Steps calls t =
      run-Keeps texts (λ t'. Steps (book t) (book t')) (refines-IsKept (book t)) calls t none_yet
