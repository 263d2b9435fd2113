-- ===== src/System/Refinement/Payment.antt =====
-- A payment, and the payment of the abstract book.
use vanguard_settlement_engi.Base.{none, some, false, ◌≡◌, find?, str_eq}
use vanguard_settlement_engi.Domain.{VirtualAccount}
use vanguard_settlement_engi.Database.{Tables, Generated}
use vanguard_settlement_engi.Database.Session.{World}
use vanguard_settlement_engi.Database.Guards.{Wrote, Wrote-weaken}
use vanguard_settlement_engi.Van.Service.{Texts, RecordPaymentCommand, record_payment}
use vanguard_settlement_engi.Van.Payments.{Accepted, Paid, record_payment-Paid}
use vanguard_settlement_engi.System.Book.{Balance, with_payment}
use vanguard_settlement_engi.System.Refinement.{book, Paid-Pays}

-- What a payment is to the book: the account with its number was there, its key was free, and the
-- amount is added.
abbrev pub Pays : RecordPaymentCommand → Tables → Tables → Type 0
Pays cmd t t' =
    (van : VirtualAccount) × (find? (λ v. str_eq v.account_number cmd.account_number)
        t.virtual_accounts
      ≡ some van)
    × ((a : Balance) × ((book t).balance van.id ≡ some a)
        × ((book t).is_used cmd.idempotency_key ≡ false)
        × (book t' ≡ with_payment van.id cmd.amount_cents cmd.idempotency_key (book t)))

-- Whatever fails, a payment that returns is the abstract payment of its amount with its key to the
-- account with its number. One that throws is that payment, or nothing was written.
pub record_payment-Pays :
    (texts : Texts) (cmd : RecordPaymentCommand) (given : Generated) (w : World)
    → w.tx ≡ none
    → Wrote (Pays cmd) w (record_payment texts cmd given w)
record_payment-Pays texts cmd given w closed =
    Wrote-weaken
      (λ t t'.
        (van : VirtualAccount) × Accepted texts cmd given van t × Paid texts cmd given van t t')
      (Pays cmd) w (record_payment texts cmd given w)
      (λ t t' (van, (found, _, _, _), paid). (van, found, Paid-Pays texts cmd given van t t' paid))
      (record_payment-Paid texts cmd given w closed)
