-- ===== src/Invoice/Submission/Outcome.antt =====
-- `submitInvoice` statement by statement.
use vanguard_settlement_engi.Base.{
  ℕ, Bool, true, false, Option, none, some, List, [], ◌∷◌, ◌≡◌, inl, inr, refl, sym, subst, ◌∙◌,
  is_some, ◌==◌, leb,
}
use vanguard_settlement_engi.Domain.{Invoice, submitted, invoice_submitted, draft}
use vanguard_settlement_engi.Errors.{
  Thrown, Result, ok, err, database, connection_failure, plain, amount_must_be_positive,
  due_date_must_be_future, invoice_number_exists,
}
use vanguard_settlement_engi.Database.{Tables, Generated}
use vanguard_settlement_engi.Database.Session.{
  World, Job, M, ◌>>=◌, ◌>>◌, pure, throw, external_of, on_committed, pool_query, client_query,
  begin_tx, commit_tx, drop_tx, rollback_tx, from_result,
}
use vanguard_settlement_engi.Database.Atomic.{Simulates, >>=-Simulates, client_query-Simulates}
use vanguard_settlement_engi.Database.Hoare.{Holds, Holds-weaken, last-Simulates}
use vanguard_settlement_engi.Database.Transaction.{transaction, Ended, after_body, IsQuiet}
use vanguard_settlement_engi.Database.Quiet.{
  pure-IsQuiet, throw_if-IsQuiet, pool_query-IsQuiet, connect-IsQuiet,
}
use vanguard_settlement_engi.Repositories.Invoices.{save, new_invoice, update_status}
use vanguard_settlement_engi.Repositories.Events
use vanguard_settlement_engi.Repositories.Reads.{invoice_by_number-Reads}
use vanguard_settlement_engi.Repositories.Effects.{Saved, save-Holds}
use vanguard_settlement_engi.Invoice.StateMachine.{
  assert_valid_transition, is_valid_transition, valid_transitions,
}
use vanguard_settlement_engi.Invoice.Service.{SubmitInvoiceCommand, submission, submit_invoice}
use vanguard_settlement_engi.Invoice.Statements.{move_stmt}
use vanguard_settlement_engi.Invoice.Requests.{move_stmt-Holds, moved_tables}
use vanguard_settlement_engi.Invoice.Submission.{
  invoice_input, Drafted, Submitted, LeftOver, SubmissionEnds,
}

-- Behind the INSERT.
abbrev pub rest : ℕ → Generated → Invoice → M Invoice
rest actor_id given invoice = do
  from_result (assert_valid_transition draft submitted)
  moved ← client_query (update_status invoice.id submitted given.now)
  event ← client_query (
      Events.append
        (record {
          invoice_id = invoice.id;
          event_type = invoice_submitted;
          actor_id = some actor_id;
        })
        given)
  pure moved

rest-Simulates :
    (actor_id : ℕ) (given : Generated) (invoice : Invoice)
    → Simulates
        (rest actor_id given invoice)
        (move_stmt invoice.id submitted invoice_submitted actor_id given)
unfolding assert_valid_transition is_valid_transition valid_transitions
rest-Simulates actor_id given invoice =
    >>=-Simulates _ _ _ _ (client_query-Simulates _) λ moved. last-Simulates _ moved

-- How a run ended, its handler still to come.
abbrev Left :
    {B : Type 0} → SubmitInvoiceCommand → ℕ → Generated → Tables → Result B × World → Type 0
Left cmd actor_id given t (ok b, v) = (v.tx ≡ none) × Submitted cmd actor_id given t v.committed
Left cmd actor_id given t (err e, v) = LeftOver cmd actor_id given t v.committed

-- The INSERT: the transaction sees what the pool committed.
abbrev Inserted : SubmitInvoiceCommand → Generated → Tables → Result Invoice × World → Type 0
Inserted cmd given t (ok i, v) =
    (v.tx ≡ some v.committed)
    × (i ≡ new_invoice (invoice_input cmd) given)
    × Drafted cmd given t v.committed
Inserted cmd given t (err e, v) = v.committed ≡ t

to_Left :
    (cmd : SubmitInvoiceCommand) (actor_id : ℕ) (given : Generated) (t : Tables)
    (r : Result (Invoice × Tables)) (w : World) (x : Result Invoice × World)
    → Drafted cmd given t w.committed
    → Holds {A = Invoice} (λ _ t'. Submitted cmd actor_id given t t') r
    → Ended {B = Invoice} r w x
    → Left cmd actor_id given t x
to_Left cmd actor_id given t r w (ok b, v) p k (h, (a, e)) =
    (h, subst (Holds {A = Invoice} (λ _ t'. Submitted cmd actor_id given t t')) e k)
to_Left cmd actor_id given t r w (err e, v) p k (inl same) =
    inr (inl (subst (Drafted cmd given t) (sym same) p))
to_Left cmd actor_id given t r w (err e, v) p k (inr (a, q)) =
    inr (inr (subst (Holds {A = Invoice} (λ _ t'. Submitted cmd actor_id given t t')) q k))

-- A world whose transaction has just begun.
abbrev begun : Tables → List Bool → List Job → World
begun t fs jobs = record { committed = t; tx = some t; faults = fs; jobs = jobs }

-- What the open transaction sees behind the INSERT.
abbrev seen : Tables → Result (Invoice × Tables) → Tables
seen t r = elim r [ ok (_, t') ↦ t' | err _ ↦ t ]

abbrev after_save :
    Option Tables
    → Result (Invoice × Tables)
    → Tables
    → List Bool
    → List Job
    → Result Invoice × World
after_save tx r t fs jobs = elim r [
  | ok (i, t') ↦ (ok i, record { committed = t'; tx = tx; faults = fs; jobs = jobs })
  | err e ↦ (err e, begun t fs jobs)
]

module _ (cmd : SubmitInvoiceCommand) (actor_id : ℕ) (given : Generated) where
  insert_result :
      (r : Result (Invoice × Tables)) (t : Tables) (fs : List Bool) (jobs : List Job)
      → Holds (Saved (invoice_input cmd) given t) r
      → Inserted cmd given t (after_save (some (seen t r)) r t fs jobs)
  insert_result (ok (i, t')) t fs jobs (is, same, fresh) = (refl, is, (fresh, same))
  insert_result (err e) t fs jobs q = refl

  insert_of :
      (busy : List Bool) (t : Tables) (fs : List Bool) (jobs : List Job)
      → Inserted cmd given t (
          external_of busy
            (database connection_failure)
            (on_committed (save (invoice_input cmd) given))
            (begun t fs jobs))
  insert_of [] t fs jobs =
      insert_result (save (invoice_input cmd) given t) t fs jobs
        (save-Holds (invoice_input cmd) given t)
  insert_of (true ∷ busy) t fs jobs = refl
  insert_of (false ∷ busy) t fs jobs =
      insert_result (save (invoice_input cmd) given t) t busy jobs
        (save-Holds (invoice_input cmd) given t)

  -- what the `try` does behind the INSERT
  after_insert :
      (t : Tables) (x : Result Invoice × World)
      → Inserted cmd given t x
      → Left cmd actor_id given t (
          ◌>>=◌ {B = Invoice}
            (λ _. elim x.0 [ ok i ↦ rest actor_id given i x.1 | err e ↦ (err e, x.1) ])
            (λ a. commit_tx >> pure a)
            x.1)
  after_insert t (err e, v) same = inl same
  after_insert t (ok i, v) (open_tx, is, drafted) =
      let s = move_stmt i.id submitted invoice_submitted actor_id given in
      to_Left cmd actor_id given t (s v.committed) v
        ((rest actor_id given i >>= λ a. commit_tx >> pure a) v) drafted
        (Holds-weaken _ _ (s v.committed)
          (move_stmt-Holds i.id submitted invoice_submitted actor_id given v.committed)
          (λ _ t' same. (
            drafted.0,
            same ∙ (λ k.
                moved_tables (is k).id submitted invoice_submitted actor_id given (drafted.1 k)),
          )))
        (after_body Invoice (s v.committed) v (λ e. e) pure pure-IsQuiet v (rest actor_id given i v)
          refl (rest-Simulates actor_id given i v v.committed open_tx))

  -- BEGIN, the INSERT and the rest
  tried_of :
      (busy : List Bool) (w : World)
      → w.tx ≡ none
      → Left cmd actor_id given w.committed (
          ◌>>◌ {B = Invoice}
            (external_of busy
              (database connection_failure)
              (λ v. (ok tt, record v { tx = some v.committed })))
            (submission cmd actor_id given >>= λ a. commit_tx >> pure a)
            w)
  unfolding submission pool_query
  tried_of [] w closed = after_insert w.committed _ (insert_of w.faults w.committed w.faults w.jobs)
  tried_of (true ∷ busy) w closed = inl refl
  tried_of (false ∷ busy) w closed =
      after_insert w.committed _ (insert_of busy w.committed busy w.jobs)

  handled_of :
      (fs : List Bool) (t : Tables) (e : Thrown) (v : World)
      → LeftOver cmd actor_id given t v.committed
      → SubmissionEnds cmd actor_id given t (
          ◌>>◌ {B = Invoice}
            (λ u. external_of fs (database connection_failure) (pure tt) (drop_tx u))
            (throw e)
            v)
  handled_of [] t e v h = (refl, h)
  handled_of (true ∷ fs) t e v h = (refl, h)
  handled_of (false ∷ fs) t e v h = (refl, h)

  handled :
      (t : Tables) (x : Result Invoice × World)
      → Left cmd actor_id given t x
      → SubmissionEnds cmd actor_id given t
          (elim x.0 [ ok b ↦ (ok b, x.1) | err e ↦ (◌>>◌ {B = Invoice} rollback_tx (throw e)) x.1 ])
  unfolding rollback_tx
  handled t (ok b, v) h = h
  handled t (err e, v) h = handled_of v.faults t e v h

  record Ends (m : M Invoice) : Type 0 where
    ends : (w : World) → w.tx ≡ none → SubmissionEnds cmd actor_id given w.committed (m w)

  transaction-Ends : Ends (transaction (submission cmd actor_id given) pure (λ e. e))
  unfolding begin_tx
  transaction-Ends = record {
    ends = λ w closed. handled w.committed _ (tried_of w.faults w closed);
  }

  guarded :
      {A : Type 0} (m : M A) (f : A → M Invoice)
      → IsQuiet m
      → ((a : A) → Ends (f a))
      → Ends (m >>= f)
  guarded {A} m f q k = record { ends = λ w closed. go w (m w) (q.keeps w closed) }
    where
      go :
          (w : World) (x : Result A × World)
          → (x.1.tx ≡ none) × (x.1.committed ≡ w.committed)
          → SubmissionEnds cmd actor_id given w.committed
              (elim x.0 [ ok a ↦ f a x.1 | err e ↦ (err e, x.1) ])
      go w (ok a, v) (h, same) =
          subst (λ t. SubmissionEnds cmd actor_id given t (f a v)) same ((k a).ends v h)
      go w (err e, v) (h, same) = (h, inl same)

  submit_invoice-Ends : Ends (submit_invoice cmd actor_id given)
  unfolding submit_invoice
  submit_invoice-Ends =
      guarded _ _ (throw_if-IsQuiet (cmd.amount_cents == 0) (plain amount_must_be_positive)) λ _.
        guarded _ _ (throw_if-IsQuiet (leb cmd.due_date given.now) (plain due_date_must_be_future))
          λ _.
            guarded _ _ (pool_query-IsQuiet _ (invoice_by_number-Reads cmd.invoice_number))
              λ existing.
                guarded _ _
                  (throw_if-IsQuiet (is_some existing)
                    (plain (invoice_number_exists cmd.invoice_number)))
                  λ _. guarded _ _ connect-IsQuiet λ _. transaction-Ends

  pub submit_invoice-SubmissionEnds :
      (w : World)
      → w.tx ≡ none
      → SubmissionEnds cmd actor_id given w.committed (submit_invoice cmd actor_id given w)
  submit_invoice-SubmissionEnds w closed = submit_invoice-Ends.ends w closed
