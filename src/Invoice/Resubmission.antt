-- ===== src/Invoice/Resubmission.antt =====
-- A submission that is sent again.
use vanguard_settlement_engi.Domain.{Invoice}
