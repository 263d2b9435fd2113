-- ===== src/Api/Routes/Health.antt =====
-- services/routes/health/health.router.ts.
use vanguard_settlement_engi.Base.{ℕ, ⊤, ◌≡◌, ◌↔◌, refl, none, ap, ◌∙◌}
use vanguard_settlement_engi.Errors.{Result, ok, err}
use vanguard_settlement_engi.Database.{Stmt}
use vanguard_settlement_engi.Database.Session.{World, pool_query}
use vanguard_settlement_engi.Database.Transaction.{IsQuiet}
use vanguard_settlement_engi.Database.Quiet.{pool_query-IsQuiet}

-- The body of a 200, of which the service's name is a constant and left out, or a 503.
pub data Health : Type 0 where
  connected : ℕ → Health
  disconnected : Health

-- `SELECT 1`
abbrev pub select_one : Stmt ⊤
select_one t = ok (tt, t)

abbrev pub health_of : ℕ → Result ⊤ × World → Health × World
health_of now (ok _, w) = (connected now, w)
health_of now (err e, w) = (disconnected, w)

-- GET /health
unfoldable pub get_health : ℕ → World → Health × World
get_health now w = health_of now (pool_query select_one w)

health_of_iff :
    (now : ℕ) (x : Result ⊤ × World)
    → (((health_of now x).0 ≡ connected now) ↔ (x.0 ≡ ok tt)) × ((health_of now x).1 ≡ x.1)
health_of_iff now (ok tt, w) = (((λ h. refl), (λ h. refl)), refl)
health_of_iff now (err e, w) = (((λ h. cc), (λ h. cc)), refl)

pub select_one-IsQuiet : IsQuiet (pool_query select_one)
select_one-IsQuiet = pool_query-IsQuiet select_one (record { row_of = λ t. tt; reads = λ t. refl })

-- The service is reported as healthy exactly where the database answers. No table is written.
pub get_health_iff :
    (now : ℕ) (w : World)
    → w.tx ≡ none
    → (((get_health now w).0 ≡ connected now) ↔ ((pool_query select_one w).0 ≡ ok tt))
      × ((get_health now w).1.committed ≡ w.committed)
unfolding get_health
get_health_iff now w closed =
    let (reported, same) = health_of_iff now (pool_query select_one w) in
    (reported, ap (λ (v : World). v.committed) same ∙ (select_one-IsQuiet.keeps w closed).1)
