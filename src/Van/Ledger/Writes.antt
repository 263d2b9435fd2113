-- ===== src/Van/Ledger/Writes.antt =====
-- How each write of the two tables moves the books.
use vanguard_settlement_engi.Base.{
  ℕ, ◌+◌, ◌≤◌, ◌<◌, true, false, List, [], ◌∷◌, ◌++◌, ◌==◌, ◌≡◌, ◌⊎◌, inl, inr, arith, eq_iff, any,
  All, All-map, All-zip, All-append, All-update_where, AllDistinct, AllDistinct-append,
  AllDistinct-update_where, any-append, any-update_where, find?, find?-only, if◌then◌else◌,
  Bool-cases, ap, refl, sym, ◌∙◌, update_where, some,
}
use vanguard_settlement_engi.Domain.{
  VirtualAccount, LedgerEntry, Invoice, InvoiceEvent, active, credit, debit,
}
use vanguard_settlement_engi.Database.{Tables, Generated}
use vanguard_settlement_engi.Repositories.Vans.{
  CreateVanInput, new_van, has_id, has_key, van_exists, credited, closed, add_received,
  mark_settled, clashes,
}
use vanguard_settlement_engi.Repositories.Effects.{entered, opened}
use vanguard_settlement_engi.Van.Ledger.{
  credit_of, credits, same_key, same_id, IsStatusRight, IsBalanced,
}

credits-append :
    (id : ℕ) (es : List LedgerEntry) (e : LedgerEntry)
    → credits id (es ++ e ∷ []) ≡ credits id es + credit_of id e
credits-append id [] e = omega arith
credits-append id (x ∷ es) e = omega (arith, credits-append id es e)

same_key_comm : (a b : LedgerEntry) → same_key a b ≡ same_key b a
same_key_comm a b =
    ground (
      arith,
      eq_iff a.idempotency_key b.idempotency_key,
      eq_iff b.idempotency_key a.idempotency_key,
    )

same_id_comm : (a b : VirtualAccount) → same_id a b ≡ same_id b a
same_id_comm a b = ground arith

==_eq : (a b : ℕ) → (a == b) ≡ true → a ≡ b
==_eq a b h = ground arith

-- No entry is of an account that does not exist.
credits-unknown :
    (id : ℕ) (es : List LedgerEntry) (t : Tables)
    → van_exists id t ≡ false
    → All (λ e. van_exists e.virtual_account_id t ≡ true) es
    → credits id es ≡ 0
credits-unknown id [] t new all = omega arith
credits-unknown id (e ∷ es) t new (p, all) = elim (Bool-cases (e.virtual_account_id == id)) [
  | inl same ↦ absurd (cc (new, p, ap (λ k. van_exists k t) (==_eq _ _ same)))
  | inr other ↦ ground (arith, credits-unknown id es t new all)
]

-- The state of a payment between its two writes: the entry is there, the increment is not.
pub record IsHalfPaid (id amount : ℕ) (t : Tables) : Type 0 where
  pub keys_distinct : AllDistinct same_key t.ledger_entries
  pub ids_distinct : AllDistinct same_id t.virtual_accounts
  pub entries_known : All (λ e. van_exists e.virtual_account_id t ≡ true) t.ledger_entries
  pub short_by_amount :
      All
        (λ v.
          v.received_amount_cents + (if has_id id v then amount else 0)
          ≡ credits v.id t.ledger_entries)
        t.virtual_accounts
  pub statuses_right : All IsStatusRight t.virtual_accounts

module _ (t : Tables) (e : LedgerEntry) (h : IsBalanced t)
    (new_key : any (has_key e.idempotency_key) t.ledger_entries ≡ false)
    (known : van_exists e.virtual_account_id t ≡ true) where
  pub entered-IsHalfPaid :
      e.entry_type ≡ credit → IsHalfPaid e.virtual_account_id e.amount_cents (entered e t)
  entered-IsHalfPaid is_credit = record {
    keys_distinct =
        AllDistinct-append same_key t.ledger_entries e (λ x. same_key_comm x e) h.keys_distinct
          new_key;
    ids_distinct = h.ids_distinct;
    entries_known = All-append _ t.ledger_entries e h.entries_known known;
    short_by_amount =
        All-map _ _ t.virtual_accounts
          (λ v p. ground (arith, credits-append v.id t.ledger_entries e)) h.received_is_credits;
    statuses_right = h.statuses_right;
  }

  pub entered-IsBalanced : e.entry_type ≡ debit → IsBalanced (entered e t)
  entered-IsBalanced is_debit = record {
    keys_distinct =
        AllDistinct-append same_key t.ledger_entries e (λ x. same_key_comm x e) h.keys_distinct
          new_key;
    ids_distinct = h.ids_distinct;
    entries_known = All-append _ t.ledger_entries e h.entries_known known;
    received_is_credits =
        All-map _ _ t.virtual_accounts
          (λ v p. ground (arith, credits-append v.id t.ledger_entries e)) h.received_is_credits;
    statuses_right = h.statuses_right;
  }

-- After the increment a status may lag behind, on the one account.
abbrev pub IsStatusOpen : ℕ → VirtualAccount → Type 0
IsStatusOpen id v = IsStatusRight v ⊎ ((has_id id v ≡ true) × (v.status ≡ active))

pub record IsPaid (id : ℕ) (t : Tables) : Type 0 where
  pub keys_distinct : AllDistinct same_key t.ledger_entries
  pub ids_distinct : AllDistinct same_id t.virtual_accounts
  pub entries_known : All (λ e. van_exists e.virtual_account_id t ≡ true) t.ledger_entries
  pub received_is_credits :
      All (λ v. v.received_amount_cents ≡ credits v.id t.ledger_entries) t.virtual_accounts
  pub statuses_open : All (IsStatusOpen id) t.virtual_accounts

van_exists-update :
    (id k : ℕ) (f : VirtualAccount → VirtualAccount) (t : Tables)
    → ((v : VirtualAccount) → (f v).id ≡ v.id)
    → any (has_id k) (update_where (has_id id) f t.virtual_accounts) ≡ van_exists k t
van_exists-update id k f t same =
    any-update_where (has_id k) (has_id id) f t.virtual_accounts (λ v. rw (same v))

pub credited-IsPaid :
    (id amount : ℕ) (t : Tables) → IsHalfPaid id amount t → IsPaid id (credited id amount t)
credited-IsPaid id amount t h = record {
  keys_distinct = h.keys_distinct;
  ids_distinct =
      AllDistinct-update_where same_id (has_id id) (add_received amount) t.virtual_accounts
        (λ x y. refl) (λ x y. refl) h.ids_distinct;
  entries_known =
      All-map _ _ t.ledger_entries
        (λ e p. van_exists-update id e.virtual_account_id (add_received amount) t (λ v. refl) ∙ p)
        h.entries_known;
  received_is_credits =
      All-update_where _ _ (has_id id) (add_received amount) t.virtual_accounts
        (λ v p hit. ground arith) (λ v p miss. ground arith) h.short_by_amount;
  statuses_open =
      All-update_where _ _ (has_id id) (add_received amount) t.virtual_accounts
        (λ v p hit. ground arith) (λ v p miss. inl p) h.statuses_right;
}

-- Every row with the identifier is the row that RETURNING gives.
only_row :
    (id : ℕ) (t : Tables) {u : VirtualAccount}
    → AllDistinct same_id t.virtual_accounts
    → find? (has_id id) t.virtual_accounts ≡ some u
    → All (λ v. has_id id v ≡ true → v ≡ u) t.virtual_accounts
only_row id t d e = find?-only (has_id id) same_id t.virtual_accounts (λ x y p q. ground arith) d e

module _ (id : ℕ) (t : Tables) (u : VirtualAccount) (h : IsPaid id t)
    (found : find? (has_id id) t.virtual_accounts ≡ some u) where
  -- Less than expected: nothing more is to be done.
  pub short-IsBalanced : u.received_amount_cents < u.expected_amount_cents → IsBalanced t
  short-IsBalanced short = record {
    keys_distinct = h.keys_distinct;
    ids_distinct = h.ids_distinct;
    entries_known = h.entries_known;
    received_is_credits = h.received_is_credits;
    statuses_right =
        All-map _ _ t.virtual_accounts (λ v p. ground (arith, p.1))
          (All-zip _ _ t.virtual_accounts h.statuses_open (only_row id t h.ids_distinct found));
  }

  -- As much as expected: the account is settled.
  pub closed-IsBalanced :
      u.expected_amount_cents ≤ u.received_amount_cents → IsBalanced (closed id t)
  closed-IsBalanced full = record {
    keys_distinct = h.keys_distinct;
    ids_distinct =
        AllDistinct-update_where same_id (has_id id) mark_settled t.virtual_accounts (λ x y. refl)
          (λ x y. refl) h.ids_distinct;
    entries_known =
        All-map _ _ t.ledger_entries
          (λ e p. van_exists-update id e.virtual_account_id mark_settled t (λ v. refl) ∙ p)
          h.entries_known;
    received_is_credits =
        All-update_where _ _ (has_id id) mark_settled t.virtual_accounts (λ v p hit. p)
          (λ v p miss. p) h.received_is_credits;
    statuses_right =
        All-update_where _ _ (has_id id) mark_settled t.virtual_accounts
          (λ v p hit. ground (arith, p.1)) (λ v p miss. ground (arith, p.0))
          (All-zip _ _ t.virtual_accounts h.statuses_open (only_row id t h.ids_distinct found));
  }

clashes-has_id :
    (input : CreateVanInput) (given : Generated) (vs : List VirtualAccount)
    → any (clashes input given) vs ≡ false
    → any (has_id given.row_id) vs ≡ false
clashes-has_id input given [] h = refl
clashes-has_id input given (v ∷ vs) h = ground (arith, clashes-has_id input given vs)

-- A new account has received nothing, and no entry is of it.
pub opened-IsBalanced :
    (input : CreateVanInput) (given : Generated) (t : Tables)
    → IsBalanced t
    → 0 < input.expected_amount_cents
    → any (clashes input given) t.virtual_accounts ≡ false
    → IsBalanced (opened (new_van input given) t)
opened-IsBalanced input given t h expects new = record {
  keys_distinct = h.keys_distinct;
  ids_distinct =
      AllDistinct-append same_id t.virtual_accounts (new_van input given)
        (λ x. same_id_comm x (new_van input given)) h.ids_distinct fresh;
  entries_known =
      All-map _ _ t.ledger_entries
        (λ e p. ground (
          arith,
          any-append (has_id e.virtual_account_id) t.virtual_accounts (new_van input given ∷ []),
        ))
        h.entries_known;
  received_is_credits =
      All-append _ t.virtual_accounts (new_van input given) h.received_is_credits
        (sym (credits-unknown given.row_id t.ledger_entries t fresh h.entries_known));
  statuses_right =
      All-append _ t.virtual_accounts (new_van input given) h.statuses_right (inr (refl, expects));
}
  where
    fresh : van_exists given.row_id t ≡ false
    fresh = clashes-has_id input given t.virtual_accounts new

-- The other tables do not matter.
pub IsBalanced-elsewhere :
    (t : Tables) (is : List Invoice) (es : List InvoiceEvent)
    → IsBalanced t
    → IsBalanced (record t { invoices = is; invoice_events = es })
IsBalanced-elsewhere t is es h = record {
  keys_distinct = h.keys_distinct;
  ids_distinct = h.ids_distinct;
  entries_known = h.entries_known;
  received_is_credits = h.received_is_credits;
  statuses_right = h.statuses_right;
}
