-- ===== src/Infra/FailedJobs/Order.antt =====
-- The list of failed jobs.
use mathlib.Core.List.{Perm}
use mathlib.Core.List.Perm
use vanguard_settlement_engi.Base.{◌≤◌, List, [], ◌∷◌, All}
use vanguard_settlement_engi.Infra.FailedJobs.{FailedJobSummary, at}

-- The latest first.
abbrev pub IsDescending : List FailedJobSummary → Type 0
IsDescending [] = Unit
IsDescending (s ∷ xs) = All (λ x. at x ≤ at s) xs × IsDescending xs
