-- ===== src/Repositories/Invoices.antt =====
-- core/repositories/invoice.repository.ts, with the constraints of the table `invoices` in
-- infra/db/migrations/V001__initial_schema.sql.
use vanguard_settlement_engi.Base.{
  ℕ, String, Bool, not, ◌||◌, Option, none, some, List, [], ◌∷◌, ◌++◌, ◌==◌, str_eq, find?, any,
  select, update_where, if◌then◌else◌, leb,
}
use vanguard_settlement_engi.Domain.{Invoice, InvoiceStatus, draft}
use vanguard_settlement_engi.Errors.{
  Result, ok, err, plain, row_missing, database, unique_violation, foreign_key_violation,
  check_violation,
}
use vanguard_settlement_engi.Database.{Tables, Stmt, Generated}

-- `WHERE id = $1`
abbrev pub has_id : ℕ → Invoice → Bool
has_id id i = i.id == id

unfoldable pub find_by_id : ℕ → Stmt (Option Invoice)
find_by_id id t = ok (find? (has_id id) t.invoices, t)

unfoldable pub find_by_invoice_number : String → Stmt (Option Invoice)
find_by_invoice_number number t = ok (find? (λ i. str_eq i.invoice_number number) t.invoices, t)

-- `ORDER BY due_date ASC`
abbrev insert_by_due_date : Invoice → List Invoice → List Invoice
insert_by_due_date i [] = i ∷ []
insert_by_due_date i (j ∷ js) =
    if leb i.due_date j.due_date then i ∷ j ∷ js else j ∷ insert_by_due_date i js

abbrev order_by_due_date : List Invoice → List Invoice
order_by_due_date [] = []
order_by_due_date (i ∷ is) = insert_by_due_date i (order_by_due_date is)

unfoldable pub find_by_supplier_id : ℕ → Stmt (List Invoice)
find_by_supplier_id supplier_id t =
    ok (order_by_due_date (select (λ i. i.supplier_id == supplier_id) t.invoices), t)

pub record CreateInvoiceInput : Type 0 where
  pub invoice_number : String
  pub supplier_id : ℕ
  pub buyer_id : ℕ
  pub amount_cents : ℕ
  pub currency : String
  pub due_date : ℕ

-- The row that the INSERT writes, with the columns' defaults.
abbrev pub new_invoice : CreateInvoiceInput → Generated → Invoice
new_invoice input given = record {
  id = given.row_id;
  invoice_number = input.invoice_number;
  supplier_id = input.supplier_id;
  buyer_id = input.buyer_id;
  amount_cents = input.amount_cents;
  currency = input.currency;
  due_date = input.due_date;
  status = draft;
  buyer_signature = none;
  created_at = given.now;
  updated_at = given.now;
}

abbrev pub org_exists : ℕ → Tables → Bool
org_exists id t = any (λ o. o.id == id) t.organisations

abbrev pub invoice_exists : ℕ → Tables → Bool
invoice_exists id t = any (has_id id) t.invoices

unfoldable pub save : CreateInvoiceInput → Generated → Stmt Invoice
save input given t =
    if input.amount_cents == 0 || input.buyer_id == input.supplier_id
    then err (database check_violation)
    else if invoice_exists given.row_id t
        || any (λ i. str_eq i.invoice_number input.invoice_number) t.invoices
    then err (database unique_violation)
    else if not (org_exists input.supplier_id t) || not (org_exists input.buyer_id t)
    then err (database foreign_key_violation)
    else ok (
      new_invoice input given,
      record t { invoices = t.invoices ++ new_invoice input given ∷ [] },
    )

abbrev pub with_status : InvoiceStatus → ℕ → Invoice → Invoice
with_status status now i = record i { status = status; updated_at = now }

-- `if (!result.rows[0]) throw …`
abbrev pub returned : {A : Type 0} → ℕ → Option A → Tables → Result (A × Tables)
returned id none t = err (plain (row_missing id))
returned id (some a) t = ok (a, t)

abbrev pub set_status : ℕ → InvoiceStatus → ℕ → Tables → Tables
set_status id status now t = record t {
  invoices = update_where (has_id id) (with_status status now) t.invoices;
}

unfoldable pub update_status : ℕ → InvoiceStatus → ℕ → Stmt Invoice
update_status id status now t =
    let t' = set_status id status now t in returned id (find? (has_id id) t'.invoices) t'
