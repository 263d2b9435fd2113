-- ===== src/Van/Retries.antt =====
-- A payment that is sent again.
use vanguard_settlement_engi.Base.{
  Bool, true, false, none, List, [], ◌∷◌, ◌++◌, ◌≡◌, ◌⊎◌, inl, inr, refl, ap, ◌∙◌, arith, any,
  any-append, leb, if◌then◌else◌, eq_iff,
}
use vanguard_settlement_engi.Domain.{VirtualAccount, LedgerEntry}
use vanguard_settlement_engi.Errors.{Result, ok, err}
use vanguard_settlement_engi.Database.{Tables, Generated}
use vanguard_settlement_engi.Database.Session.{World, request_on}
use vanguard_settlement_engi.Database.Guards.{Wrote}
use vanguard_settlement_engi.Repositories.Vans.{has_key, new_entry}
use vanguard_settlement_engi.Van.Statements.{credit_input}
use vanguard_settlement_engi.Van.Service.{
  Texts, RecordPaymentCommand, record_payment, VanWithLedger,
}
use vanguard_settlement_engi.Van.Receipts.{key_used, record_payment-enqueues_nothing}
use vanguard_settlement_engi.Van.Payments.{
  Accepted, Paid, paid_tables, settled_tables, record_payment-Paid,
}

-- It throws, and the tables are as before.
abbrev pub Refused : {A : Type 0} → World → Result A × World → Type 0
Refused w (ok a, v) = ⊥
Refused w (err e, v) = v.committed ≡ w.committed

abbrev ledger : Tables → List LedgerEntry
ledger t = t.ledger_entries

module _ (texts : Texts) (cmd : RecordPaymentCommand) (given : Generated) where
  -- A payment adds its one entry to the ledger.
  pub ledger-Paid :
      (van : VirtualAccount) (t t' : Tables)
      → Paid texts cmd given van t t'
      → t'.ledger_entries ≡ t.ledger_entries ++ new_entry (credit_input texts cmd van.id) given ∷ []
  ledger-Paid van t t' (fresh, (u, found, same)) =
      ap ledger same ∙ go (leb u.expected_amount_cents u.received_amount_cents)
    where
      go :
          (b : Bool)
          → (if b
              then settled_tables given van (paid_tables texts cmd given van t)
              else paid_tables texts cmd given van t).ledger_entries
            ≡ t.ledger_entries ++ new_entry (credit_input texts cmd van.id) given ∷ []
      go true = refl
      go false = refl

  Paid-used :
      (van : VirtualAccount) (t t' : Tables)
      → Paid texts cmd given van t t'
      → key_used cmd t' ≡ true
  Paid-used van t t' paid =
      let e = new_entry (credit_input texts cmd van.id) given in
      ap (any (has_key cmd.idempotency_key)) (ledger-Paid van t t' paid)
      ∙ any-append (has_key cmd.idempotency_key) t.ledger_entries (e ∷ [])
      ∙ ground (arith, eq_iff cmd.idempotency_key cmd.idempotency_key)

  used_key :
      (w : World) (x : Result VanWithLedger × World)
      → key_used cmd w.committed ≡ true
      → Wrote
          (λ t t'.
            (van : VirtualAccount) × Accepted texts cmd given van t × Paid texts cmd given van t t')
          w
          x
      → Refused w x
  used_key w (ok a, v) used (_, (van, _, (fresh, _))) = absurd (ground arith)
  used_key w (err e, v) used (_, inl same) = same
  used_key w (err e, v) used (_, inr (van, _, (fresh, _))) = absurd (ground arith)

  -- A payment whose key any entry of the ledger has, of whatever account, is never applied, whatever
  -- fails: it throws and leaves the tables as they are.
  record_payment-used_key :
      (w : World)
      → w.tx ≡ none
      → key_used cmd w.committed ≡ true
      → Refused w (record_payment texts cmd given w)
  record_payment-used_key w closed used =
      used_key w (record_payment texts cmd given w) used
        (record_payment-Paid texts cmd given w closed)

  kept_or_used :
      (w : World) (x : Result VanWithLedger × World)
      → Wrote
          (λ t t'.
            (van : VirtualAccount) × Accepted texts cmd given van t × Paid texts cmd given van t t')
          w
          x
      → (x.1.committed ≡ w.committed) ⊎ (key_used cmd x.1.committed ≡ true)
  kept_or_used w (ok a, v) (_, (van, _, paid)) = inr (Paid-used van w.committed v.committed paid)
  kept_or_used w (err e, v) (_, inl same) = inl same
  kept_or_used w (err e, v) (_, inr (van, _, paid)) =
      inr (Paid-used van w.committed v.committed paid)

-- A payment is applied at most once: after a first request, whatever failed in it, either nothing was
-- written, or every further request with its key, whatever it pays to whom and whatever fails in
-- it, throws, writes nothing and enqueues nothing. So where the first has failed behind its COMMIT, no
-- retry enqueues the receipt.
pub record_payment-at_most_once :
    (texts : Texts) (cmd again : RecordPaymentCommand) (given later : Generated) (w : World)
    (faults : List Bool)
    → w.tx ≡ none
    → again.idempotency_key ≡ cmd.idempotency_key
    → let t = (record_payment texts cmd given w).1.committed in
      (t ≡ w.committed)
      ⊎ (Refused (request_on t faults) (record_payment texts again later (request_on t faults))
          × ((record_payment texts again later (request_on t faults)).1.jobs ≡ []))
record_payment-at_most_once texts cmd again given later w faults closed same_key =
    let x = record_payment texts cmd given w in
    let again_used : key_used cmd x.1.committed ≡ true → key_used again x.1.committed ≡ true =
      λ used. ap (λ k. any (has_key k) x.1.committed.ledger_entries) same_key ∙ used in
    elim (kept_or_used texts cmd given w x (record_payment-Paid texts cmd given w closed)) [
      | inl same ↦ inl same
      | inr used ↦ inr (
        record_payment-used_key texts again later (request_on x.1.committed faults) refl
            (again_used used),
        record_payment-enqueues_nothing again texts later (request_on x.1.committed faults) refl
            (again_used used),
      )
    ]
