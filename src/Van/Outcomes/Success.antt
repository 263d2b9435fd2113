-- ===== src/Van/Outcomes/Success.antt =====
-- A payment that nothing stands against.
use vanguard_settlement_engi.Base.{
  ◌≤◌, ◌<◌, ⊤, some, none, find?, List, [], ◌∷◌, ◌++◌, ◌≡◌, refl, subst, ap, ◌∙◌, arith,
  if◌then◌else◌, Bool, true, false, any, ◌==◌, select, leb, Option, find?-update_where,
}
use vanguard_settlement_engi.Domain.{Invoice, VirtualAccount, repaid, invoice_repaid}
use vanguard_settlement_engi.Errors.{Result, ok, err}
use vanguard_settlement_engi.Database.{Tables, Generated}
use vanguard_settlement_engi.Database.Session.{
  World, Job, pure, ◌>>=◌, ◌>>◌, pool_query, commit_tx, rollback_tx, throw, try_catch, enqueue,
  settlement_receipt_pdf,
}
use vanguard_settlement_engi.Database.Atomic.{then_stmt}
use vanguard_settlement_engi.Database.Calm.{calm, Continues}
use vanguard_settlement_engi.Repositories.Vans.{
  get_ledger_entries, has_key, has_id, of_account, bigint_max, append_ledger_entry, new_entry,
  van_exists, overflows, credited, update_received_amount, closed, settle_account, mark_settled,
  settle_account,
}
use vanguard_settlement_engi.Repositories.Effects.{entered}
use vanguard_settlement_engi.Database.Hoare.{then_stmt-ok, return_stmt}
use vanguard_settlement_engi.Repositories.Events
use vanguard_settlement_engi.Repositories.Invoices
use vanguard_settlement_engi.Repositories.Events.{CreateEventInput, new_event}
use vanguard_settlement_engi.Repositories.Invoices.{invoice_exists, with_status, set_status}
use vanguard_settlement_engi.Invoice.History.Writes.{exists-update}
use vanguard_settlement_engi.Van.Service.{
  set_repaid, Texts, RecordPaymentCommand, record_payment, report, enqueue_for, as_duplicate,
  VanWithLedger,
}
use vanguard_settlement_engi.Van.Statements.{
  payment_stmt, settle_if_full, settlement_stmt, credit_input,
}
use vanguard_settlement_engi.Van.Payments.{Accepted, paid_tables, settled_tables}
use vanguard_settlement_engi.Van.Outcomes.{after_entry, record_payment-calm}

abbrev repaid_input : VirtualAccount → CreateEventInput
repaid_input van = record {
  invoice_id = van.invoice_id;
  event_type = invoice_repaid;
  actor_id = none;
}

module _ (texts : Texts) (cmd : RecordPaymentCommand) (given : Generated) (t : Tables)
    (jobs : List Job) where
  entry_goes :
      (van : VirtualAccount)
      → 0 < cmd.amount_cents
      → cmd.amount_cents ≤ bigint_max
      → any (has_key cmd.idempotency_key) t.ledger_entries ≡ false
      → any (λ e. e.id == given.entry_id) t.ledger_entries ≡ false
      → van_exists van.id t ≡ true
      → append_ledger_entry (credit_input texts cmd van.id) given t
        ≡ ok (
          new_entry (credit_input texts cmd van.id) given,
          entered (new_entry (credit_input texts cmd van.id) given) t,
        )
  unfolding append_ledger_entry
  entry_goes van positive fits fresh new exists = ground arith

  increment_goes :
      (van u : VirtualAccount) (t₁ : Tables)
      → any (overflows van.id cmd.amount_cents) t₁.virtual_accounts ≡ false
      → find? (has_id van.id) (credited van.id cmd.amount_cents t₁).virtual_accounts ≡ some u
      → update_received_amount van.id cmd.amount_cents t₁
        ≡ ok (u, credited van.id cmd.amount_cents t₁)
  unfolding update_received_amount
  increment_goes van u t₁ fits found = ground arith

  module _ (van u : VirtualAccount) (t₁ : Tables)
      (found : find? (has_id van.id) t₁.virtual_accounts ≡ some u) where
    row_settles : settle_account van.id t₁ ≡ ok (mark_settled u, closed van.id t₁)
    unfolding settle_account
    row_settles = ground (
      arith,
      find?-update_where (has_id van.id) mark_settled t₁.virtual_accounts u (λ x. refl) found,
    )

    module _ (new : any (λ e. e.id == given.event_id) t₁.invoice_events ≡ false)
        (known : invoice_exists van.invoice_id t₁ ≡ true) where
      event_goes :
          Events.append
            (repaid_input van)
            given
            (set_status van.invoice_id repaid given.now (closed van.id t₁))
          ≡ ok (new_event (repaid_input van) given, settled_tables given van t₁)
      unfolding Events.append
      event_goes = ground (
        arith,
        exists-update van.invoice_id van.invoice_id (with_status repaid given.now) t₁ (λ i. refl),
      )

      settlement_goes :
          settlement_stmt given van t₁ ≡ ok (mark_settled u, settled_tables given van t₁)
      unfolding set_repaid
      settlement_goes =
          then_stmt-ok (settle_account van.id) _ t₁ (mark_settled u) (closed van.id t₁) row_settles
          ∙ then_stmt-ok (Events.append (repaid_input van) given)
              (λ _. return_stmt (mark_settled u)) _ (new_event (repaid_input van) given)
              (settled_tables given van t₁) event_goes

  -- The rest after the increment, on tables with the row `u`.
  module _ (van u : VirtualAccount) (t₁ : Tables)
      (found : find? (has_id van.id) t₁.virtual_accounts ≡ some u)
      (new : any (λ e. e.id == given.event_id) t₁.invoice_events ≡ false)
      (known : invoice_exists van.invoice_id t₁ ≡ true) where
    full_goes :
        (b : Bool)
        → (if b
              then then_stmt {B = VirtualAccount × Bool}
                  (settlement_stmt given van)
                  (λ v. return_stmt (v, true))
              else return_stmt (u, false))
            t₁
          ≡ ok (
            (if b then (mark_settled u, true) else (u, false)),
            (if b then settled_tables given van t₁ else t₁),
          )
    full_goes true =
        then_stmt-ok (settlement_stmt given van) (λ v. return_stmt (v, true)) t₁ (mark_settled u)
          (settled_tables given van t₁) (settlement_goes van u t₁ found new known)
    full_goes false = refl

  -- An accepted payment that fits, with identifiers that are new.
  module _ (van u : VirtualAccount) (accepted : Accepted texts cmd given van t)
      (positive : 0 < cmd.amount_cents) (small : cmd.amount_cents ≤ bigint_max)
      (fresh : any (has_key cmd.idempotency_key) t.ledger_entries ≡ false)
      (new_id : any (λ e. e.id == given.entry_id) t.ledger_entries ≡ false)
      (new_event_id : any (λ e. e.id == given.event_id) t.invoice_events ≡ false)
      (exists : van_exists van.id t ≡ true) (known : invoice_exists van.invoice_id t ≡ true)
      (fits : any (overflows van.id cmd.amount_cents) t.virtual_accounts ≡ false)
      (found : find? (has_id van.id) (paid_tables texts cmd given van t).virtual_accounts
        ≡ some u) where
    abbrev full : Bool
    full = leb u.expected_amount_cents u.received_amount_cents

    abbrev after_payment : Tables
    after_payment =
        if full
        then settled_tables given van (paid_tables texts cmd given van t)
        else paid_tables texts cmd given van t

    payment_goes :
        payment_stmt texts cmd given van t
        ≡ ok ((if full then (mark_settled u, true) else (u, false)), after_payment)
    payment_goes =
        let e = new_entry (credit_input texts cmd van.id) given in
        then_stmt-ok (append_ledger_entry (credit_input texts cmd van.id) given)
          (after_entry texts cmd given t jobs van) t e (entered e t)
          (entry_goes van positive small fresh new_id exists)
        ∙ then_stmt-ok (update_received_amount van.id cmd.amount_cents) (settle_if_full given van)
            (entered e t) u (paid_tables texts cmd given van t)
            (increment_goes van u (entered e t) fits found)
        ∙ full_goes van u (paid_tables texts cmd given van t) found new_event_id known full

    abbrev settled_answer : Tables → VanWithLedger
    settled_answer t' = record {
      virtual_account = mark_settled u;
      ledger_entries = select (of_account van.id) t'.ledger_entries;
      is_fully_settled = true;
    }

    queued :
        (t' : Tables) (o : Option Invoice)
        → (jobs' : List Job) × (enqueue_for o (calm t' jobs) ≡ (ok tt, calm t' jobs'))
    unfolding enqueue
    queued t' none = (jobs, refl)
    queued t' (some i) = (jobs ++ settlement_receipt_pdf i.id i.amount_cents ∷ [], refl)

    -- the rest of the `try`, behind the receipt's job
    abbrev reported : Tables → Result ⊤ × World → Result VanWithLedger × World
    reported t' x =
        try_catch
          (λ w. elim x.0 [
            | ok _ ↦
                (commit_tx
                    >> (pool_query (get_ledger_entries van.id) >>= λ ledger_entries. pure (record {
                      virtual_account = mark_settled u;
                      ledger_entries = ledger_entries;
                      is_fully_settled = true;
                    })))
                  x.1
            | err e ↦ (err e, x.1)
          ])
          (λ e. rollback_tx >> throw (as_duplicate cmd.idempotency_key e)) (calm t' jobs)

    report_goes :
        (b : Bool) (t' : Tables)
        → (answer : VanWithLedger) × (jobs' : List Job) × (try_catch
              (report van (if b then (mark_settled u, true) else (u, false)))
              (λ e. rollback_tx >> throw (as_duplicate cmd.idempotency_key e))
              (calm t' jobs)
            ≡ (ok answer, calm t' jobs'))
    unfolding report pool_query commit_tx get_ledger_entries Invoices.find_by_id enqueue
    report_goes false t' = (_, jobs, refl)
    report_goes true t' =
        let (jobs', e) = queued t' (find? (Invoices.has_id van.invoice_id) t'.invoices) in
        (settled_answer t', jobs', ap (reported t') e)

    -- Where nothing fails, an accepted payment with a new key goes through, with exactly the writes of
    -- `after_payment`.
    pub record_payment-goes :
        (answer : VanWithLedger) × (jobs' : List Job) × (record_payment texts cmd given
            (calm t jobs)
          ≡ (ok answer, calm after_payment jobs'))
    record_payment-goes =
        let (answer, jobs', e) = report_goes full after_payment in
        (
          answer,
          jobs',
          subst
                (λ r.
                  Continues r (report van) (as_duplicate cmd.idempotency_key) t jobs
                    (record_payment texts cmd given (calm t jobs)))
                payment_goes (record_payment-calm texts cmd given t jobs van accepted)
              ∙ e,
        )
