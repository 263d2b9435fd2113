-- ===== src/Database/Preserves/Pool.antt =====
-- Statements of the pool that write, and handlers of errors.
use vanguard_settlement_engi.Base.{Bool, true, false, List, [], ◌∷◌, none, ◌≡◌, ap}
use vanguard_settlement_engi.Errors.{Thrown, Result, ok, err, database, connection_failure}
use vanguard_settlement_engi.Database.{Tables, Stmt}
use vanguard_settlement_engi.Database.Session.{
  World, M, ◌>>=◌, try_catch, external_of, on_committed, carry, pool_query,
}
use vanguard_settlement_engi.Database.Transaction.{IsQuiet}
use vanguard_settlement_engi.Database.Hoare.{Holds}
use vanguard_settlement_engi.Database.Preserves.{Preserves, quiet-Preserves, >>=-Preserves}

module _ (P : Tables → Type 0) where
  -- A step that leaves the tables alone, before one that keeps the property.
  pub quiet->>= :
      {A B : Type 0} (m : M A) (f : A → M B)
      → IsQuiet m
      → ((a : A) → Preserves P (f a))
      → Preserves P (m >>= f)
  quiet->>= m f q k = >>=-Preserves P m f (quiet-Preserves P m q) k

  module _ {A : Type 0} (s : Stmt A)
      (kept : (t : Tables) → P t → Holds {A = A} (λ _ t'. P t') (s t)) where
    on_committed-keeps :
        (w : World)
        → w.tx ≡ none
        → P w.committed
        → ((on_committed s w).1.tx ≡ none) × P (on_committed s w).1.committed
    on_committed-keeps w h p = go (s w.committed) (kept w.committed p)
      where
        go :
            (r : Result (A × Tables))
            → Holds {A = A} (λ _ t'. P t') r
            → let x : Result A × World = elim r [
              | ok (a, t) ↦ (ok a, record w { committed = t; tx = carry s w.tx })
              | err e ↦ (err e, w)
            ] in
              (x.1.tx ≡ none) × P x.1.committed
        go (ok (a, t)) k = (ap (carry s) h, k)
        go (err e) k = (h, p)

    pub pool_query-Preserves : Preserves P (pool_query s)
    unfolding pool_query
    pool_query-Preserves = record { keeps = λ w. go w w.faults }
      where
        go :
            (w : World) (faults : List Bool)
            → w.tx ≡ none
            → P w.committed
            → let x = external_of faults (database connection_failure) (on_committed s) w in
              (x.1.tx ≡ none) × P x.1.committed
        go w [] h p = on_committed-keeps w h p
        go w (true ∷ rest) h p = (h, p)
        go w (false ∷ rest) h p = on_committed-keeps (record w { faults = rest }) h p

  module _ {A : Type 0} (m : M A) (handler : Thrown → M A) (pm : Preserves P m)
      (ph : (e : Thrown) → Preserves P (handler e)) where
    pub try_catch-Preserves : Preserves P (try_catch m handler)
    try_catch-Preserves = record { keeps = λ w h p. go (m w) (pm.keeps w h p) }
      where
        go :
            (x : Result A × World)
            → (x.1.tx ≡ none) × P x.1.committed
            → let y : Result A × World = elim x.0 [ ok a ↦ (ok a, x.1) | err e ↦ handler e x.1 ] in
              (y.1.tx ≡ none) × P y.1.committed
        go (ok a, v) k = k
        go (err e, v) (h, p) = (ph e).keeps v h p
