-- ===== src/System/Submission.antt =====
-- A submission keeps the tables consistent, also where it leaves a draft behind.
use vanguard_settlement_engi.Base.{ℕ, refl, sym, subst, ◌∙◌, any-append, arith, [], ◌∷◌}
use vanguard_settlement_engi.Domain.{submitted}
use vanguard_settlement_engi.Database.{Tables, Generated}
use vanguard_settlement_engi.Repositories.Invoices.{new_invoice, has_id}
use vanguard_settlement_engi.Repositories.Effects.{saved}
use vanguard_settlement_engi.Invoice.Service.{SubmitInvoiceCommand}
use vanguard_settlement_engi.Invoice.Submission.{invoice_input, Drafted, Submitted}
use vanguard_settlement_engi.Invoice.History.Writes.{saved-IsReplayed}
use vanguard_settlement_engi.Van.Ledger.Writes.{IsBalanced-elsewhere}
use vanguard_settlement_engi.System.{IsConsistent}
use vanguard_settlement_engi.System.Statements.{moved-IsConsistent}

module _ (cmd : SubmitInvoiceCommand) (actor_id : ℕ) (given : Generated) (t : Tables)
    (h : IsConsistent t) where
  pub Drafted-IsConsistent : (t' : Tables) → Drafted cmd given t t' → IsConsistent t'
  Drafted-IsConsistent t' (fresh, same) = subst IsConsistent (sym same) (record {
    balanced = IsBalanced-elsewhere t _ t.invoice_events h.balanced;
    replayed = saved-IsReplayed (invoice_input cmd) given t h.replayed fresh;
  })

  pub Submitted-IsConsistent : (t' : Tables) → Submitted cmd actor_id given t t' → IsConsistent t'
  Submitted-IsConsistent t' (fresh, same) =
      let i = new_invoice (invoice_input cmd) given in
      subst IsConsistent (sym same) (
        moved-IsConsistent (saved i t) _ (Drafted-IsConsistent (saved i t) (fresh, refl))
          (any-append (has_id given.row_id) t.invoices (i ∷ []) ∙ ground arith) submitted given.now
          (λ s. refl))
