-- ===== src/Database/Jobs.antt =====
-- Code that enqueues nothing, whatever fails.
use vanguard_settlement_engi.Base.{
  Bool, true, false, Option, none, some, List, [], ◌∷◌, ◌≡◌, refl, ◌∙◌, arith,
}
use vanguard_settlement_engi.Errors.{Thrown, Result, ok, err}
use vanguard_settlement_engi.Database.{Tables, Stmt}
use vanguard_settlement_engi.Database.Session.{
  World, Job, M, ◌>>=◌, pure, throw_if, or_throw, external, external_of, on_committed, pool_query,
  client_query, connect, begin_tx, commit_tx, rollback_tx, carry,
}
use vanguard_settlement_engi.Database.Transaction.{transaction, IsQuiet}

pub record EnqueuesNothing {A : Type 0} (m : M A) : Type 0 where
  pub same_jobs : (w : World) → (m w).1.jobs ≡ w.jobs

pub pure-EnqueuesNothing : {A : Type 0} (a : A) → EnqueuesNothing (pure a)
pure-EnqueuesNothing a = record { same_jobs = λ w. refl }

pub throw_if-EnqueuesNothing : (b : Bool) (e : Thrown) → EnqueuesNothing (throw_if b e)
throw_if-EnqueuesNothing b e = record { same_jobs = λ w. refl }

pub or_throw-EnqueuesNothing :
    {A : Type 0} (o : Option A) (e : Thrown) → EnqueuesNothing (or_throw o e)
or_throw-EnqueuesNothing none e = record { same_jobs = λ w. refl }
or_throw-EnqueuesNothing (some a) e = record { same_jobs = λ w. refl }

external-EnqueuesNothing :
    {A : Type 0} (e : Thrown) (m : M A) → EnqueuesNothing m → EnqueuesNothing (external e m)
external-EnqueuesNothing e m k = record { same_jobs = λ w. go w w.faults }
  where
    go : (w : World) (faults : List Bool) → (external_of faults e m w).1.jobs ≡ w.jobs
    go w [] = k.same_jobs w
    go w (true ∷ faults) = refl
    go w (false ∷ faults) = k.same_jobs (record w { faults = faults })

on_committed-EnqueuesNothing : {A : Type 0} (s : Stmt A) → EnqueuesNothing (on_committed s)
on_committed-EnqueuesNothing {A} s = record { same_jobs = λ w. go w (s w.committed) }
  where
    go :
        (w : World) (r : Result (A × Tables))
        → let x : Result A × World = elim r [
          | ok (a, t) ↦ (ok a, record w { committed = t; tx = carry s w.tx })
          | err e ↦ (err e, w)
        ] in
          x.1.jobs ≡ w.jobs
    go w (ok (a, t)) = refl
    go w (err e) = refl

pub pool_query-EnqueuesNothing : {A : Type 0} (s : Stmt A) → EnqueuesNothing (pool_query s)
unfolding pool_query
pool_query-EnqueuesNothing s = external-EnqueuesNothing _ _ (on_committed-EnqueuesNothing s)

pub connect-EnqueuesNothing : EnqueuesNothing connect
unfolding connect
connect-EnqueuesNothing = external-EnqueuesNothing _ _ (pure-EnqueuesNothing tt)

pub rollback_tx-EnqueuesNothing : EnqueuesNothing rollback_tx
unfolding rollback_tx
rollback_tx-EnqueuesNothing = record {
  same_jobs = λ w.
      (external-EnqueuesNothing _ _ (pure-EnqueuesNothing tt)).same_jobs (record w { tx = none });
}

module _ {A B : Type 0} (m : M A) (f : A → M B) where
  pub >>=-EnqueuesNothing :
      EnqueuesNothing m → ((a : A) → EnqueuesNothing (f a)) → EnqueuesNothing (m >>= f)
  >>=-EnqueuesNothing k h = record { same_jobs = λ w. go (m w) ∙ k.same_jobs w }
    where
      go :
          (x : Result A × World)
          → let y : Result B × World = elim x.0 [ ok a ↦ f a x.1 | err e ↦ (err e, x.1) ] in
            y.1.jobs ≡ x.1.jobs
      go (ok a, v) = (h a).same_jobs v
      go (err e, v) = refl

module _ {A B : Type 0} (m : M A) (f : A → M B) (k : EnqueuesNothing m) (q : IsQuiet m) where
  -- Behind a step that leaves the tables alone.
  pub quiet-enqueues_nothing :
      (w : World)
      → w.tx ≡ none
      → ((a : A) (v : World) → v.tx ≡ none → v.committed ≡ w.committed → (f a v).1.jobs ≡ v.jobs)
      → ((m >>= f) w).1.jobs ≡ w.jobs
  quiet-enqueues_nothing w closed h = go (m w) (q.keeps w closed) ∙ k.same_jobs w
    where
      go :
          (x : Result A × World)
          → (x.1.tx ≡ none) × (x.1.committed ≡ w.committed)
          → let y : Result B × World = elim x.0 [ ok a ↦ f a x.1 | err e ↦ (err e, x.1) ] in
            y.1.jobs ≡ x.1.jobs
      go (ok a, v) (open', same) = h a v open' same
      go (err e, v) facts = refl

-- A transaction whose first statement the tables refuse never gets behind its COMMIT.
module _ {A B C : Type 0} (s : Stmt A) (rest : A → M B) (after : B → M C)
    (rethrown : Thrown → Thrown) (e : Thrown) where
  refused_by_tables :
      (t : Tables) (tx : Option Tables) (jobs : List Job) (faults : List Bool)
      → s t ≡ err e
      → (transaction
          (client_query s >>= rest)
          after
          rethrown
          (record { committed = t; tx = tx; faults = faults; jobs = jobs })).1.jobs
        ≡ jobs
  unfolding begin_tx client_query rollback_tx commit_tx
  refused_by_tables t tx jobs [] h = ground (arith, h)
  refused_by_tables t tx jobs (true ∷ []) h = refl
  refused_by_tables t tx jobs (true ∷ true ∷ faults) h = refl
  refused_by_tables t tx jobs (true ∷ false ∷ faults) h = refl
  refused_by_tables t tx jobs (false ∷ []) h = ground (arith, h)
  refused_by_tables t tx jobs (false ∷ true ∷ []) h = refl
  refused_by_tables t tx jobs (false ∷ true ∷ true ∷ faults) h = refl
  refused_by_tables t tx jobs (false ∷ true ∷ false ∷ faults) h = refl
  refused_by_tables t tx jobs (false ∷ false ∷ []) h = ground (arith, h)
  refused_by_tables t tx jobs (false ∷ false ∷ true ∷ faults) h = ground (arith, h)
  refused_by_tables t tx jobs (false ∷ false ∷ false ∷ faults) h = ground (arith, h)

  pub transaction-enqueues_nothing :
      (w : World)
      → s w.committed ≡ err e
      → (transaction (client_query s >>= rest) after rethrown w).1.jobs ≡ w.jobs
  transaction-enqueues_nothing w h = refused_by_tables w.committed w.tx w.jobs w.faults h
