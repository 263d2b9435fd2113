-- ===== src/Infra/Worker/Attempts.antt =====
-- What the attempts of a job come to.
use vanguard_settlement_engi.Base.{
  ℕ, ◌+◌, ◌≤◌, String, Bool, true, false, List, [], ◌∷◌, ◌++◌, map, length, ◌≡◌, ◌⊎◌,
}
use vanguard_settlement_engi.Infra.Receipt.{
  SettlementReceiptPdfPayload, Draw, settlement_receipt, receipt_path,
}
use vanguard_settlement_engi.Infra.Mail.{InvoiceApprovedPayload, invoice_approved_email}
use vanguard_settlement_engi.Infra.Worker.{Outside, Done, call_of, write_receipt, set_receipt_path}

module _ (format_currency : ℕ → String → String) (local_date format_date : String → String) where
  -- One e-mail where a job completes, and none where it fails, which takes a failure each time.
  abbrev pub Notified : List String → InvoiceApprovedPayload → Outside → Done → Type 0
  Notified attempts p o x =
      (x.1.files ≡ o.files)
      × (x.1.receipt_paths ≡ o.receipt_paths)
      × (((x.0 ≡ true)
            × (x.1.mails ≡ o.mails ++ invoice_approved_email format_currency local_date p ∷ []))
          ⊎ ((x.0 ≡ false)
              × (x.1.mails ≡ o.mails)
              × (o.faults ≡ map (λ _. true) attempts ++ x.1.faults)))

  -- A completed job has recorded the path of the receipt that it wrote last. A failed one has recorded
  -- nothing. Each attempt has written at most one file.
  abbrev pub Receipted : List String → SettlementReceiptPdfPayload → Outside → Done → Type 0
  Receipted attempts p o x =
      (x.1.mails ≡ o.mails)
      × (length x.1.files ≤ length o.files + length attempts)
      × (((x.0 ≡ true)
            × ((now : String) × (before : List (String × List Draw)) × (x.1.files
                  ≡ before
                    ++ (receipt_path p.invoice_id now, settlement_receipt format_date now p) ∷ [])
                × (x.1.receipt_paths
                    ≡ o.receipt_paths ++ (p.invoice_id, receipt_path p.invoice_id now) ∷ [])))
          ⊎ ((x.0 ≡ false) × (x.1.receipt_paths ≡ o.receipt_paths)))

  module _ (p : SettlementReceiptPdfPayload) where
    abbrev written : String → Outside → Outside
    written now o = write_receipt format_currency local_date format_date now p o

    -- Behind the file.
    abbrev recorded : String → List Bool → Outside → Done
    recorded now faults o =
        call_of faults
          (set_receipt_path format_currency local_date format_date (receipt_path p.invoice_id now)
            p.invoice_id)
          o
