-- ===== src/Invoice/Submission.antt =====
-- How `submitInvoice` can end: its INSERT is committed on its own, and the rest of its transaction is
-- all or nothing on top of it.
pub mod Outcome
use vanguard_settlement_engi.Base.{
  ℕ, Bool, true, false, Option, none, some, List, [], ◌∷◌, ◌≡◌, ◌⊎◌, inl, inr, refl, sym, subst,
  ◌∙◌, is_some, ◌==◌, leb,
}
use vanguard_settlement_engi.Domain.{Invoice, submitted, invoice_submitted, draft}
use vanguard_settlement_engi.Errors.{
  Thrown, Result, ok, err, database, connection_failure, plain, amount_must_be_positive,
  due_date_must_be_future, invoice_number_exists,
}
use vanguard_settlement_engi.Database.{Tables, Generated}
use vanguard_settlement_engi.Database.Session.{
  World, Job, M, ◌>>=◌, ◌>>◌, pure, throw, external_of, on_committed, pool_query, client_query,
  begin_tx, commit_tx, drop_tx, rollback_tx, from_result,
}
use vanguard_settlement_engi.Database.Atomic.{Simulates, >>=-Simulates, client_query-Simulates}
use vanguard_settlement_engi.Database.Hoare.{Holds, Holds-weaken, last-Simulates}
use vanguard_settlement_engi.Database.Transaction.{transaction, Ended, after_body, IsQuiet}
use vanguard_settlement_engi.Database.Quiet.{
  pure-IsQuiet, throw_if-IsQuiet, pool_query-IsQuiet, connect-IsQuiet,
}
use vanguard_settlement_engi.Repositories.Invoices.{
  CreateInvoiceInput, save, new_invoice, invoice_exists, update_status,
}
use vanguard_settlement_engi.Repositories.Events
use vanguard_settlement_engi.Repositories.Reads.{invoice_by_number-Reads}
use vanguard_settlement_engi.Repositories.Effects.{Saved, save-Holds, saved}
use vanguard_settlement_engi.Invoice.StateMachine.{
  assert_valid_transition, is_valid_transition, valid_transitions,
}
use vanguard_settlement_engi.Invoice.Service.{SubmitInvoiceCommand, submission, submit_invoice}
use vanguard_settlement_engi.Invoice.Statements.{move_stmt}
use vanguard_settlement_engi.Invoice.Requests.{move_stmt-Holds, moved_tables}

abbrev pub invoice_input : SubmitInvoiceCommand → CreateInvoiceInput
invoice_input cmd = record {
  invoice_number = cmd.invoice_number;
  supplier_id = cmd.supplier_id;
  buyer_id = cmd.buyer_id;
  amount_cents = cmd.amount_cents;
  currency = cmd.currency;
  due_date = cmd.due_date;
}

-- What the INSERT alone leaves.
abbrev pub Drafted : SubmitInvoiceCommand → Generated → Tables → Tables → Type 0
Drafted cmd given t t' =
    (invoice_exists given.row_id t ≡ false) × (t' ≡ saved (new_invoice (invoice_input cmd) given) t)

-- What the whole transaction leaves.
abbrev pub Submitted : SubmitInvoiceCommand → ℕ → Generated → Tables → Tables → Type 0
Submitted cmd actor_id given t t' =
    (invoice_exists given.row_id t ≡ false)
    × (t'
        ≡ moved_tables given.row_id submitted invoice_submitted actor_id given
            (saved (new_invoice (invoice_input cmd) given) t))

abbrev pub LeftOver : SubmitInvoiceCommand → ℕ → Generated → Tables → Tables → Type 0
LeftOver cmd actor_id given t t' =
    (t' ≡ t) ⊎ (Drafted cmd given t t' ⊎ Submitted cmd actor_id given t t')

abbrev pub SubmissionEnds :
    SubmitInvoiceCommand → ℕ → Generated → Tables → Result Invoice × World → Type 0
SubmissionEnds cmd actor_id given t (ok i, v) =
    (v.tx ≡ none) × Submitted cmd actor_id given t v.committed
SubmissionEnds cmd actor_id given t (err e, v) =
    (v.tx ≡ none) × LeftOver cmd actor_id given t v.committed
