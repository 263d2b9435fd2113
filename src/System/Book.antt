-- ===== src/System/Book.antt =====
-- What the books promise, with nothing of how they are stored: per account what is expected of it and
-- what it has received, and which idempotency keys are used up.
use vanguard_settlement_engi.Base.{
  ℕ, ◌+◌, ◌<◌, String, Bool, false, ◌||◌, Option, none, some, ◌==◌, ◌≡◌, str_eq, if◌then◌else◌,
}

pub record Balance : Type 0 where
  pub expected : ℕ
  pub received : ℕ

pub record Book : Type 0 where
  pub balance : ℕ → Option Balance
  pub is_used : String → Bool

abbrev pub received_more : ℕ → Option Balance → Option Balance
received_more amount none = none
received_more amount (some a) = some (record a { received = a.received + amount })

abbrev pub with_payment : ℕ → ℕ → String → Book → Book
with_payment id amount key b = record {
  balance = λ k. if k == id then received_more amount (b.balance k) else b.balance k;
  is_used = λ k. b.is_used k || str_eq key k;
}

abbrev pub with_account : ℕ → ℕ → String → Book → Book
with_account id expected key b = record {
  balance =
      λ k. if k == id then some (record { expected = expected; received = 0 }) else b.balance k;
  is_used = λ k. b.is_used k || str_eq key k;
}

-- A new account, or a payment to an account that is there; either uses up a key that was free.
pub data Step : Book → Book → Type 0 where
  open_account :
      (b b' : Book) (id expected : ℕ) (key : String)
      → b.balance id ≡ none
      → 0 < expected
      → b.is_used key ≡ false
      → b' ≡ with_account id expected key b
      → Step b b'
  pay :
      (b b' : Book) (id amount : ℕ) (key : String) (a : Balance)
      → b.balance id ≡ some a
      → b.is_used key ≡ false
      → b' ≡ with_payment id amount key b
      → Step b b'

pub data Steps (b : Book) : Book → Type 0 where
  none_yet : Steps b b
  further : {b' b'' : Book} → Steps b b' → Step b' b'' → Steps b b''
