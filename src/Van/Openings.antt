-- ===== src/Van/Openings.antt =====
-- What opening an account checks and writes, whatever fails on the way.
use vanguard_settlement_engi.Base.{
  ⊤, String, not, some, none, find?, ◌≡◌, ap, ◌∙◌, arith, is_some, ◌==◌,
}
use vanguard_settlement_engi.Domain.{Invoice, VirtualAccount, financing_requested, van_created}
use vanguard_settlement_engi.Errors.{
  plain, invoice_missing, van_needs_financing_requested, van_already_exists,
}
use vanguard_settlement_engi.Database.{Tables, Generated}
use vanguard_settlement_engi.Database.Session.{World, connect, pure}
use vanguard_settlement_engi.Database.Hoare.{Holds, then_stmt-Holds, Holds-weaken, return_stmt}
use vanguard_settlement_engi.Database.Quiet.{connect-IsQuiet, pure-IsQuiet}
use vanguard_settlement_engi.Database.Guards.{
  Writes, Wrote, quiet-Ensures, or_throw-Ensures, read-Ensures, throw_if-Ensures, >>=-Writes,
  transaction-Writes,
}
use vanguard_settlement_engi.Repositories.Events
use vanguard_settlement_engi.Repositories.Events.{CreateEventInput, new_event}
use vanguard_settlement_engi.Repositories.Invoices
use vanguard_settlement_engi.Repositories.Vans.{
  create, find_by_invoice_id, append_ledger_entry, new_van, new_entry,
}
use vanguard_settlement_engi.Repositories.Effects.{
  Opened, opened, create-Holds, Entered, entered, append_ledger_entry-Holds, Appended, appended,
  append-Holds,
}
use vanguard_settlement_engi.Repositories.Reads.{invoice_by_id-Reads, van_by_invoice-Reads}
use vanguard_settlement_engi.Invoice.StateMachine.{same_status}
use vanguard_settlement_engi.Van.Service.{Texts, CreateVanCommand, create_van, opening}
use vanguard_settlement_engi.Van.Statements.{
  opening_stmt, opening-Simulates, van_input, advance_input,
}

module _ (texts : Texts) (cmd : CreateVanCommand) (account_number : String)
    (given : Generated) where
  -- The account, the debit of the advance and the event.
  abbrev pub opened_tables : Invoice → Tables → Tables
  opened_tables invoice t =
      let event : CreateEventInput = record {
        invoice_id = cmd.invoice_id;
        event_type = van_created;
        actor_id = none;
      } in
      let van = new_van (van_input cmd account_number given) given in
      appended (new_event event given)
        (entered (new_entry (advance_input texts cmd invoice van.id) given) (opened van t))

  pub opening_stmt-Holds :
      (invoice : Invoice) (t : Tables)
      → Holds {A = VirtualAccount}
          (λ _ t'. t' ≡ opened_tables invoice t)
          (opening_stmt texts cmd account_number given invoice t)
  opening_stmt-Holds invoice t =
      let input = van_input cmd account_number given in
      let event : CreateEventInput = record {
        invoice_id = cmd.invoice_id;
        event_type = van_created;
        actor_id = none;
      } in
      let Q : VirtualAccount → Tables → Type 0 = λ _ t'. t' ≡ opened_tables invoice t in
      then_stmt-Holds (Opened input given t) Q (create input given) _ t (create-Holds input given t)
        λ van t₁ (is, same₁, _, _, _).
          let advance = advance_input texts cmd invoice van.id in
          then_stmt-Holds (Entered advance given t₁) Q (append_ledger_entry advance given) _ t₁
            (append_ledger_entry-Holds advance given t₁)
            λ _ t₂ (same₂, _, _).
              then_stmt-Holds (Appended event given t₂) Q (Events.append event given)
                (λ _. return_stmt van) t₂ (append-Holds event given t₂)
                λ _ t₃ (same₃, _).
                  same₃
                  ∙ ap (appended (new_event event given)) (
                      same₂ ∙ (λ j.
                        entered (new_entry (advance_input texts cmd invoice (is j).id) given)
                          (same₁ j)))

  -- What opening an account has checked and written.
  abbrev pub Opens : Tables → Tables → Type 0
  Opens t t' =
      (i : Invoice) × (find? (Invoices.has_id cmd.invoice_id) t.invoices ≡ some i)
      × (i.status ≡ financing_requested)
      × (find? (λ v. v.invoice_id == cmd.invoice_id) t.virtual_accounts ≡ none)
      × (t' ≡ opened_tables i t)

  create_van-Writes : Writes (λ _. ⊤) (create_van texts cmd account_number given) Opens
  unfolding create_van Invoices.find_by_id find_by_invoice_id
  create_van-Writes =
      >>=-Writes _ _ _ _ _ (read-Ensures _ _ (invoice_by_id-Reads cmd.invoice_id)) λ found.
        >>=-Writes _ _ _ _ _ (or_throw-Ensures _ found (plain (invoice_missing cmd.invoice_id)))
          λ invoice.
            >>=-Writes _ _ _ _ _
              (throw_if-Ensures _ (not (same_status invoice.status financing_requested))
                (plain (van_needs_financing_requested invoice.status)))
              λ _.
                >>=-Writes _ _ _ _ _ (read-Ensures _ _ (van_by_invoice-Reads cmd.invoice_id))
                  λ existing.
                    >>=-Writes _ _ _ _ _
                      (throw_if-Ensures _ (is_some existing) (van_already_exists cmd.invoice_id))
                      λ _. >>=-Writes _ _ _ _ _ (quiet-Ensures _ connect connect-IsQuiet) λ _.
                        transaction-Writes _ (opening texts cmd account_number given invoice)
                          (opening_stmt texts cmd account_number given invoice) pure (λ e. e) _
                          (opening-Simulates texts cmd account_number given invoice) pure-IsQuiet
                          (λ t (((((_, row), is), status), read), absent).
                            Holds-weaken _ _ (opening_stmt texts cmd account_number given invoice t)
                              (opening_stmt-Holds invoice t)
                              (λ _ t' same.
                                (invoice, ground arith, ground arith, ground arith, same)))

  -- Whatever fails, a call that returns was for an invoice that was FINANCING_REQUESTED and had no
  -- account, and it has written the account, the debit of the advance and the event, and nothing else.
  -- A call that throws has written all of that or nothing.
  pub create_van-Opens :
      (w : World) → w.tx ≡ none → Wrote Opens w (create_van texts cmd account_number given w)
  create_van-Opens w closed = create_van-Writes.wrote w closed tt
