-- ===== src/Van/Outcomes.antt =====
-- What a payment answers where nothing fails from outside.
pub mod Success
use vanguard_settlement_engi.Base.{
  ◌≤◌, ◌<◌, ⊤, some, none, find?, List, [], ◌∷◌, ◌++◌, ◌≡◌, refl, sym, subst, ap, ◌∙◌, arith,
  if◌then◌else◌, Bool, true, false, any, ◌==◌, select, leb, Option, find?-update_where,
}
use vanguard_settlement_engi.Domain.{Invoice, VirtualAccount, LedgerEntry, repaid, invoice_repaid}
use vanguard_settlement_engi.Errors.{Result, ok, err, duplicate_payment, database, unique_violation}
use vanguard_settlement_engi.Database.{Tables, Stmt, Generated}
use vanguard_settlement_engi.Database.Session.{
  World, Job, M, connect, pure, ◌>>=◌, ◌>>◌, pool_query, commit_tx, rollback_tx, throw, try_catch,
  enqueue, settlement_receipt_pdf,
}
use vanguard_settlement_engi.Database.Atomic.{then_stmt}
use vanguard_settlement_engi.Database.Calm.{calm, Continues, transaction-calm}
use vanguard_settlement_engi.Repositories.Vans.{
  find_by_account_number, get_ledger_entries, has_key, has_id, of_account, bigint_max,
  append_ledger_entry, new_entry, van_exists, overflows, credited, update_received_amount, closed,
  settle_account, mark_settled, settle_account,
}
use vanguard_settlement_engi.Repositories.Effects.{entered}
use vanguard_settlement_engi.Database.Hoare.{then_stmt-err, then_stmt-ok, return_stmt}
use vanguard_settlement_engi.Repositories.Events
use vanguard_settlement_engi.Repositories.Invoices
use vanguard_settlement_engi.Repositories.Events.{CreateEventInput, new_event}
use vanguard_settlement_engi.Repositories.Invoices.{invoice_exists, with_status, set_status}
use vanguard_settlement_engi.Invoice.History.Writes.{exists-update}
use vanguard_settlement_engi.Van.Service.{
  set_repaid, Texts, RecordPaymentCommand, check_payment, apply_payment, record_payment, payment,
  report, enqueue_for, as_duplicate, VanWithLedger,
}
use vanguard_settlement_engi.Van.Statements.{
  payment_stmt, settle_if_full, settlement_stmt, payment-Simulates, credit_input,
}
use vanguard_settlement_engi.Van.Payments.{Accepted, paid_tables, settled_tables}

module _ (texts : Texts) (cmd : RecordPaymentCommand) (given : Generated) (t : Tables)
    (jobs : List Job) where
  check_payment-calm :
      (van : VirtualAccount)
      → Accepted texts cmd given van t
      → check_payment cmd (calm t jobs) ≡ (ok van, calm t jobs)
  unfolding check_payment pool_query find_by_account_number get_ledger_entries
  check_payment-calm van (row, live, open_still, fresh) = ground arith

  -- What is left of a payment that was accepted is its statements.
  pub record_payment-calm :
      (van : VirtualAccount)
      → Accepted texts cmd given van t
      → Continues
          (payment_stmt texts cmd given van t)
          (report van)
          (as_duplicate cmd.idempotency_key)
          t
          jobs
          (record_payment texts cmd given (calm t jobs))
  unfolding record_payment apply_payment connect
  record_payment-calm van accepted =
      let open_one : VirtualAccount → M VanWithLedger = apply_payment texts cmd given in
      subst
        (λ x.
          Continues (payment_stmt texts cmd given van t) (report van)
            (as_duplicate cmd.idempotency_key) t jobs
            (elim x.0 [ ok a ↦ open_one a x.1 | err e ↦ (err e, x.1) ]))
        (sym (check_payment-calm van accepted))
        (transaction-calm (payment texts cmd given van) (payment_stmt texts cmd given van)
          (report van) (as_duplicate cmd.idempotency_key) (payment-Simulates texts cmd given van) t
          jobs)

  entry_clashes :
      (van : VirtualAccount)
      → 0 < cmd.amount_cents
      → cmd.amount_cents ≤ bigint_max
      → any (has_key cmd.idempotency_key) t.ledger_entries ≡ true
      → append_ledger_entry (credit_input texts cmd van.id) given t
        ≡ err (database unique_violation)
  unfolding append_ledger_entry
  entry_clashes van positive fits used = ground arith

  abbrev after_entry : VirtualAccount → LedgerEntry → Stmt (VirtualAccount × Bool)
  after_entry van _ =
      then_stmt (update_received_amount van.id cmd.amount_cents) (settle_if_full given van)

  -- A key that any account's entry has is answered as a duplicate, though the account that is paid
  -- has no entry with it, and nothing is written.
  pub record_payment-duplicate :
      (van : VirtualAccount)
      → Accepted texts cmd given van t
      → 0 < cmd.amount_cents
      → cmd.amount_cents ≤ bigint_max
      → any (has_key cmd.idempotency_key) t.ledger_entries ≡ true
      → record_payment texts cmd given (calm t jobs)
        ≡ (err (duplicate_payment cmd.idempotency_key), calm t jobs)
  record_payment-duplicate van accepted positive fits used =
      subst
        (λ r.
          Continues r (report van) (as_duplicate cmd.idempotency_key) t jobs
            (record_payment texts cmd given (calm t jobs)))
        (then_stmt-err (append_ledger_entry (credit_input texts cmd van.id) given) (after_entry van)
          t (database unique_violation) (entry_clashes van positive fits used))
        (record_payment-calm van accepted)
