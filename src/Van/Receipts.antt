-- ===== src/Van/Receipts.antt =====
-- What a payment whose key is used up enqueues.
use vanguard_settlement_engi.Base.{
  ⊤, ℕ, Bool, true, any, none, ◌==◌, ltb, ◌≡◌, ap, ◌∙◌, arith, inl, inr, Bool-cases, str_eq, trim,
}
use vanguard_settlement_engi.Domain.{VirtualAccount}
use vanguard_settlement_engi.Errors.{
  Thrown, err, database, out_of_range, check_violation, unique_violation, plain, van_has_expired,
  van_is_settled, duplicate_payment,
}
use vanguard_settlement_engi.Database.{Tables, Generated}
use vanguard_settlement_engi.Database.Session.{World, connect, client_query, ◌>>=◌}
use vanguard_settlement_engi.Database.Transaction.{transaction}
use vanguard_settlement_engi.Database.Quiet.{connect-IsQuiet}
use vanguard_settlement_engi.Database.Jobs.{
  EnqueuesNothing, pure-EnqueuesNothing, throw_if-EnqueuesNothing, or_throw-EnqueuesNothing,
  pool_query-EnqueuesNothing, connect-EnqueuesNothing, >>=-EnqueuesNothing, quiet-enqueues_nothing,
  transaction-enqueues_nothing,
}
use vanguard_settlement_engi.Repositories.Vans.{
  has_key, bigint_max, append_ledger_entry, update_received_amount,
}
use vanguard_settlement_engi.Van.Service.{
  Texts, RecordPaymentCommand, check_payment, payment, report, as_duplicate, apply_payment,
  record_payment, settle_when_full, is_expired, is_settled,
}
use vanguard_settlement_engi.Van.Statements.{credit_input}
use vanguard_settlement_engi.Van.Reports.{check_payment-IsQuiet}

abbrev pub key_used : RecordPaymentCommand → Tables → Bool
key_used cmd t = any (has_key cmd.idempotency_key) t.ledger_entries

module _ (cmd : RecordPaymentCommand) where
  check_payment-EnqueuesNothing : EnqueuesNothing (check_payment cmd)
  unfolding check_payment
  check_payment-EnqueuesNothing = >>=-EnqueuesNothing _ _ (pool_query-EnqueuesNothing _) λ found.
      >>=-EnqueuesNothing _ _ (or_throw-EnqueuesNothing found _) λ van.
        >>=-EnqueuesNothing _ _
          (throw_if-EnqueuesNothing (is_expired van.status)
            (plain (van_has_expired cmd.account_number)))
          λ _. >>=-EnqueuesNothing _ _ (pool_query-EnqueuesNothing _) λ existing.
            >>=-EnqueuesNothing _ _
              (throw_if-EnqueuesNothing
                (any (λ e. str_eq (trim e.idempotency_key) (trim cmd.idempotency_key)) existing)
                (duplicate_payment cmd.idempotency_key))
              λ _.
                >>=-EnqueuesNothing _ _
                  (throw_if-EnqueuesNothing (is_settled van.status)
                    (plain (van_is_settled cmd.account_number)))
                  λ _. pure-EnqueuesNothing van

  module _ (texts : Texts) (given : Generated) where
    entry_refused :
        (id : ℕ) (t : Tables)
        → key_used cmd t ≡ true
        → (e : Thrown) × (append_ledger_entry (credit_input texts cmd id) given t ≡ err e)
    unfolding append_ledger_entry
    entry_refused id t used = elim (Bool-cases (ltb bigint_max cmd.amount_cents)) [
      | inl large ↦ (database out_of_range, ground (arith, large))
      | inr small ↦ elim (Bool-cases (cmd.amount_cents == 0)) [
        | inl zero' ↦ (database check_violation, ground (arith, small, zero'))
        | inr positive ↦ (database unique_violation, ground (arith, small, positive, used))
      ]
    ]

    applied :
        (van : VirtualAccount) (w : World)
        → w.tx ≡ none
        → key_used cmd w.committed ≡ true
        → (apply_payment texts cmd given van w).1.jobs ≡ w.jobs
    unfolding apply_payment payment
    applied van w closed used =
        quiet-enqueues_nothing connect
          (λ (_ : ⊤).
            transaction (payment texts cmd given van) (report van)
              (as_duplicate cmd.idempotency_key))
          connect-EnqueuesNothing connect-IsQuiet w closed
          (λ _ v open' same.
            let (e, refused) = entry_refused van.id v.committed (ap (key_used cmd) same ∙ used) in
            transaction-enqueues_nothing (append_ledger_entry (credit_input texts cmd van.id) given)
              (λ _. client_query (update_received_amount van.id cmd.amount_cents) >>= λ updated.
                settle_when_full cmd given van updated)
              (report van) (as_duplicate cmd.idempotency_key) e v refused)

    -- Whatever fails, a payment whose key any entry has enqueues nothing.
    pub record_payment-enqueues_nothing :
        (w : World)
        → w.tx ≡ none
        → key_used cmd w.committed ≡ true
        → (record_payment texts cmd given w).1.jobs ≡ w.jobs
    unfolding record_payment
    record_payment-enqueues_nothing w closed used =
        quiet-enqueues_nothing (check_payment cmd) (apply_payment texts cmd given)
          check_payment-EnqueuesNothing (check_payment-IsQuiet cmd) w closed
          (λ van v open' same. applied van v open' (ap (key_used cmd) same ∙ used))
