-- ===== src/System/Trail.antt =====
-- The ledger and the audit trail from call to call.
use vanguard_settlement_engi.Base.{
  String, Bool, true, false, List, [], ◌∷◌, ◌++◌, ◌≡◌, refl, sym, subst, ap, ◌∙◌, leb,
  if◌then◌else◌,
}
use mathlib.Core.List.{append-nil, append_assoc}
use vanguard_settlement_engi.Domain.{Invoice, InvoiceEvent, LedgerEntry, VirtualAccount}
use vanguard_settlement_engi.Database.{Tables, Generated}
use vanguard_settlement_engi.Database.Hoare.{Holds, Holds-weaken}
use vanguard_settlement_engi.Repositories.Effects.{appended}
use vanguard_settlement_engi.Van.Service.{Texts, RecordPaymentCommand, CreateVanCommand}
use vanguard_settlement_engi.Van.Statements.{opening_stmt}
use vanguard_settlement_engi.Van.Payments.{Paid, settled_tables}
use vanguard_settlement_engi.Van.Openings.{opened_tables, opening_stmt-Holds}
use vanguard_settlement_engi.System.Elsewhere.{by_writes-IsKept}
use vanguard_settlement_engi.System.Run.{Call, run, run-Keeps}

-- `zs` is `xs` with more behind it.
abbrev pub Extends : {A : Type 0} → List A → List A → Type 0
Extends {A} xs zs = (ys : List A) × (zs ≡ xs ++ ys)

pub record IsLater (t t' : Tables) : Type 0 where
  pub entries : Extends t.ledger_entries t'.ledger_entries
  pub events : Extends t.invoice_events t'.invoice_events
  pub same_organisations : t'.organisations ≡ t.organisations
  pub same_credentials : t'.organisation_credentials ≡ t.organisation_credentials

Extends-more : {A : Type 0} (xs zs : List A) (a : A) → Extends xs zs → Extends xs (zs ++ a ∷ [])
Extends-more xs zs a (ys, e) = (ys ++ a ∷ [], ap (λ l. l ++ a ∷ []) e ∙ append_assoc xs ys (a ∷ []))

module _ (s : Tables) where
  event-IsLater : (e : InvoiceEvent) (t : Tables) → IsLater s t → IsLater s (appended e t)
  event-IsLater e t h = record {
    entries = h.entries;
    events = Extends-more _ _ e h.events;
    same_organisations = h.same_organisations;
    same_credentials = h.same_credentials;
  }

  rows-IsLater :
      (is : List Invoice) (vs : List VirtualAccount) (t : Tables)
      → IsLater s t
      → IsLater s (record t { invoices = is; virtual_accounts = vs })
  rows-IsLater is vs t h = record {
    entries = h.entries;
    events = h.events;
    same_organisations = h.same_organisations;
    same_credentials = h.same_credentials;
  }

  entry-IsLater :
      (e : LedgerEntry) (t : Tables)
      → IsLater s t
      → IsLater s (record t { ledger_entries = t.ledger_entries ++ e ∷ [] })
  entry-IsLater e t h = record {
    entries = Extends-more _ _ e h.entries;
    events = h.events;
    same_organisations = h.same_organisations;
    same_credentials = h.same_credentials;
  }

  module _ (texts : Texts) where
    settled-IsLater :
        (given : Generated) (van : VirtualAccount) (full : Bool) (t : Tables)
        → IsLater s t
        → IsLater s (if full then settled_tables given van t else t)
    settled-IsLater given van true t h = event-IsLater _ _ (rows-IsLater _ _ t h)
    settled-IsLater given van false t h = h

    payment-IsLater :
        (cmd : RecordPaymentCommand) (given : Generated) (van : VirtualAccount) (t t' : Tables)
        → IsLater s t
        → Paid texts cmd given van t t'
        → IsLater s t'
    payment-IsLater cmd given van t t' h (_, (u, _, same)) = subst (IsLater s) (sym same) (
        settled-IsLater given van (leb u.expected_amount_cents u.received_amount_cents) _
          (rows-IsLater t.invoices _ _ (entry-IsLater _ t h)))

    opened-IsLater :
        (cmd : CreateVanCommand) (account_number : String) (given : Generated) (invoice : Invoice)
        (t : Tables)
        → IsLater s t
        → Holds {A = VirtualAccount}
            (λ _ t'. IsLater s t')
            (opening_stmt texts cmd account_number given invoice t)
    opened-IsLater cmd account_number given invoice t h =
        Holds-weaken (λ _ t'. t' ≡ opened_tables texts cmd account_number given invoice t)
          (λ _ t'. IsLater s t') (opening_stmt texts cmd account_number given invoice t)
          (opening_stmt-Holds texts cmd account_number given invoice t)
          (λ _ t' same.
            subst (IsLater s) (sym same)
              (event-IsLater _ _ (entry-IsLater _ _ (rows-IsLater t.invoices _ t h))))

-- Any calls of the services, whatever fails in them, only add to the ledger and to the audit trail, and
-- leave the organisations and their credentials alone.
pub run-IsLater :
    (texts : Texts) (calls : List (Call × List Bool)) (t : Tables) → IsLater t (run texts calls t)
run-IsLater texts calls t =
    run-Keeps texts (IsLater t)
      (by_writes-IsKept texts (IsLater t) (record {
        invoices = λ is t' h. rows-IsLater t is t'.virtual_accounts t' h;
        event = event-IsLater t;
        paid = payment-IsLater t texts;
        opened = opened-IsLater t texts;
      }))
      calls t
      (record {
        entries = ([], sym (append-nil t.ledger_entries));
        events = ([], sym (append-nil t.invoice_events));
        same_organisations = refl;
        same_credentials = refl;
      })
