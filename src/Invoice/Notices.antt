-- ===== src/Invoice/Notices.antt =====
-- Behind its COMMIT an approval leaves the tables alone.
use vanguard_settlement_engi.Base.{str_eq}
use vanguard_settlement_engi.Domain.{Invoice}
use vanguard_settlement_engi.Database.Transaction.{IsQuiet}
use vanguard_settlement_engi.Database.Quiet.{
  pure-IsQuiet, pool_query-IsQuiet, client_query-IsQuiet, enqueue-IsQuiet, >>=-IsQuiet, if-IsQuiet,
}
use vanguard_settlement_engi.Repositories.Reads.{organisation-Reads, email-Reads}
use vanguard_settlement_engi.Invoice.Service.{notify_supplier, email_or_empty}

pub notify_supplier-IsQuiet :
    (invoice approved : Invoice) → IsQuiet (notify_supplier invoice approved)
unfolding notify_supplier
notify_supplier-IsQuiet invoice approved =
    >>=-IsQuiet _ _ (pool_query-IsQuiet _ (organisation-Reads invoice.supplier_id)) λ _.
      >>=-IsQuiet _ _ (client_query-IsQuiet _ (email-Reads invoice.supplier_id)) λ credential.
        >>=-IsQuiet _ _
          (if-IsQuiet (str_eq (email_or_empty credential) "") _ _ (pure-IsQuiet tt)
            (enqueue-IsQuiet _))
          λ _. pure-IsQuiet approved
