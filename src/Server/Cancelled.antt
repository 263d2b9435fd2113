-- ===== src/Server/Cancelled.antt =====
-- Tables in which nothing but cancellations of invoices has changed what is owed and paid.
use vanguard_settlement_engi.Base.{
  ℕ, Bool, true, false, List, [], ◌∷◌, refl, sym, ap, subst, ◌≡◌, ◌⊎◌, inl, inr, update_where,
  if◌then◌else◌,
}
use vanguard_settlement_engi.Domain.{Invoice, cancelled}
use vanguard_settlement_engi.Database.{Tables, Generated}
use vanguard_settlement_engi.Database.Hoare.{Holds, Holds-weaken}
use vanguard_settlement_engi.Repositories.Invoices.{has_id}
use vanguard_settlement_engi.Invoice.Statements.{assessment_stmt}
use vanguard_settlement_engi.Risk.Types.{
  AssessInvoiceRiskCommand, RiskAssessmentResult, RiskDecision, approve, reject, manual_review,
}
use vanguard_settlement_engi.Risk.Records.{assessed_tables, assessment_stmt-Holds}
use vanguard_settlement_engi.Api.Authenticate.{◌then◌}

-- An invoice is as it was, or as it was but cancelled.
abbrev pub SameOrCancelled : Invoice → Invoice → Type 0
SameOrCancelled i i' =
    (i' ≡ i) ⊎ ((now : ℕ) × (i' ≡ record i { status = cancelled; updated_at = now }))

abbrev pub EachSameOrCancelled : List Invoice → List Invoice → Type 0
EachSameOrCancelled [] [] = Unit
EachSameOrCancelled [] (i' ∷ is') = ⊥
EachSameOrCancelled (i ∷ is) [] = ⊥
EachSameOrCancelled (i ∷ is) (i' ∷ is') = SameOrCancelled i i' × EachSameOrCancelled is is'

pub record OnlyCancels (t t' : Tables) : Type 0 where
  pub invoices : EachSameOrCancelled t.invoices t'.invoices
  pub virtual_accounts : t'.virtual_accounts ≡ t.virtual_accounts
  pub ledger_entries : t'.ledger_entries ≡ t.ledger_entries

pub EachSameOrCancelled-refl : (is : List Invoice) → EachSameOrCancelled is is
EachSameOrCancelled-refl [] = tt
EachSameOrCancelled-refl (i ∷ is) = (inl refl, EachSameOrCancelled-refl is)

cancel-SameOrCancelled :
    (now : ℕ) (b : Bool) (i i' : Invoice)
    → SameOrCancelled i i'
    → SameOrCancelled i (if b then record i' { status = cancelled; updated_at = now } else i')
cancel-SameOrCancelled now false i i' h = h
cancel-SameOrCancelled now true i i' (inl same) =
    inr (now, ap (λ (x : Invoice). record x { status = cancelled; updated_at = now }) same)
cancel-SameOrCancelled now true i i' (inr (then', same)) =
    inr (now, ap (λ (x : Invoice). record x { status = cancelled; updated_at = now }) same)

cancel-EachSameOrCancelled :
    (id now : ℕ) (is is' : List Invoice)
    → EachSameOrCancelled is is'
    → EachSameOrCancelled is
        (update_where (has_id id) (λ i. record i { status = cancelled; updated_at = now }) is')
cancel-EachSameOrCancelled id now [] [] h = tt
cancel-EachSameOrCancelled id now [] (i' ∷ is') h = elim h [ ]
cancel-EachSameOrCancelled id now (i ∷ is) [] h = elim h [ ]
cancel-EachSameOrCancelled id now (i ∷ is) (i' ∷ is') (h, hs) =
    (cancel-SameOrCancelled now (has_id id i') i i' h, cancel-EachSameOrCancelled id now is is' hs)

module _ (t : Tables) where
  assessed-OnlyCancels :
      (cmd : AssessInvoiceRiskCommand) (actor_id : ℕ) (given : Generated) (decision : RiskDecision)
      (t' : Tables)
      → OnlyCancels t t'
      → OnlyCancels t (assessed_tables cmd actor_id given decision t')
  assessed-OnlyCancels cmd actor_id given approve t' h = record {
    invoices = h.invoices;
    virtual_accounts = h.virtual_accounts;
    ledger_entries = h.ledger_entries;
  }
  assessed-OnlyCancels cmd actor_id given manual_review t' h = record {
    invoices = h.invoices;
    virtual_accounts = h.virtual_accounts;
    ledger_entries = h.ledger_entries;
  }
  assessed-OnlyCancels cmd actor_id given reject t' h = record {
    invoices =
        cancel-EachSameOrCancelled cmd.invoice_id given.now t.invoices t'.invoices h.invoices;
    virtual_accounts = h.virtual_accounts;
    ledger_entries = h.ledger_entries;
  }

  pub assessment_stmt-OnlyCancels :
      (cmd : AssessInvoiceRiskCommand) (actor_id : ℕ) (given : Generated)
      (result : RiskAssessmentResult) (t' : Tables)
      → OnlyCancels t t'
      → Holds {A = RiskAssessmentResult}
          (λ _ t''. OnlyCancels t t'')
          (assessment_stmt cmd actor_id given result t')
  assessment_stmt-OnlyCancels cmd actor_id given result t' h =
      Holds-weaken (λ _ t''. t'' ≡ assessed_tables cmd actor_id given result.decision t')
        (λ _ t''. OnlyCancels t t'') (assessment_stmt cmd actor_id given result t')
        (assessment_stmt-Holds cmd actor_id given result t')
        (λ _ t'' same.
          subst (OnlyCancels t) (sym same)
            (assessed-OnlyCancels cmd actor_id given result.decision t' h))
