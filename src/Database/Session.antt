-- ===== src/Database/Session.antt =====
-- One request's use of the pool: the committed tables, the open transaction's copy, the outcome of
-- each call to a service outside the process, and the jobs that were enqueued.
use vanguard_settlement_engi.Base.{
  ℕ, String, Bool, true, false, Option, none, some, List, [], ◌∷◌, ◌++◌, ⊤, if◌then◌else◌,
}
use vanguard_settlement_engi.Errors.{
  Thrown, Result, ok, err, database, connection_failure, queue_failure,
}
use vanguard_settlement_engi.Database.{Tables, Stmt}

-- `queue.add(name, payload, { jobId })`. The payload's texts and dates are left out.
pub data Job : Type 0 where
  invoice_approved_notify : ℕ → String → ℕ → Job
  settlement_receipt_pdf : ℕ → ℕ → Job

pub record World : Type 0 where
  pub committed : Tables
  pub tx : Option Tables
  -- `true` where the next call of the database or a queue fails; none fails after the list's end
  pub faults : List Bool
  pub jobs : List Job

abbrev pub M : Type 0 → Type 0
M A = World → Result A × World

abbrev pub pure : {A : Type 0} → A → M A
pure a w = (ok a, w)

abbrev pub throw : {A : Type 0} → Thrown → M A
throw e w = (err e, w)

infixl 5 ◌>>=◌ ◌>>◌
abbrev pub ◌>>=◌ : {A B : Type 0} → M A → (A → M B) → M B
◌>>=◌ m f w = let (r, w') = m w in elim r [ ok a ↦ f a w' | err e ↦ (err e, w') ]

abbrev pub ◌>>◌ : {B : Type 0} → M ⊤ → M B → M B
m >> k = m >>= λ _. k

-- `if (test) throw e`
abbrev pub throw_if : Bool → Thrown → M ⊤
throw_if test e w = (if test then err e else ok tt, w)

-- `if (!row) throw e`
abbrev pub or_throw : {A : Type 0} → Option A → Thrown → M A
or_throw none e w = (err e, w)
or_throw (some a) e w = (ok a, w)

-- A synchronous call that may throw.
abbrev pub from_result : {A : Type 0} → Result A → M A
from_result r w = (r, w)

-- `try { m } catch (e) { handler(e) }`
abbrev pub try_catch : {A : Type 0} → M A → (Thrown → M A) → M A
try_catch m handler w = let (r, w') = m w in elim r [ ok a ↦ (ok a, w') | err e ↦ handler e w' ]

abbrev pub external_of : {A : Type 0} → List Bool → Thrown → M A → M A
external_of [] e m w = m w
external_of (true ∷ rest) e m w = (err e, record w { faults = rest })
external_of (false ∷ rest) e m w = m (record w { faults = rest })

-- A call that leaves the process: it throws `e` where the next outcome is a failure.
abbrev pub external : {A : Type 0} → Thrown → M A → M A
external e m w = external_of w.faults e m w

-- What a write of the pool adds to an open transaction's view (READ COMMITTED).
abbrev pub carry : {A : Type 0} → Stmt A → Option Tables → Option Tables
carry s none = none
carry s (some t) = some (elim (s t) [ ok (_, t') ↦ t' | err _ ↦ t ])

abbrev pub on_committed : {A : Type 0} → Stmt A → M A
on_committed s w = elim (s w.committed) [
  | ok (a, t) ↦ (ok a, record w { committed = t; tx = carry s w.tx })
  | err e ↦ (err e, w)
]

abbrev pub on_client : {A : Type 0} → Stmt A → Option Tables → M A
on_client s none w = on_committed s w
on_client s (some t) w = elim (s t) [
  | ok (a, t') ↦ (ok a, record w { tx = some t' })
  | err e ↦ (err e, w)
]

-- `pool.query(…)`
unfoldable pub pool_query : {A : Type 0} → Stmt A → M A
pool_query s = external (database connection_failure) (on_committed s)

-- `client.query(…)`: outside a transaction each statement is committed at once.
unfoldable pub client_query : {A : Type 0} → Stmt A → M A
client_query s = external (database connection_failure) (λ w. on_client s w.tx w)

-- `pool.connect()`
unfoldable pub connect : M ⊤
connect = external (database connection_failure) (pure tt)

-- `client.query('BEGIN')`
unfoldable pub begin_tx : M ⊤
begin_tx = external (database connection_failure) (λ w. (ok tt, record w { tx = some w.committed }))

abbrev pub commit_of : Option Tables → M ⊤
commit_of none w = (ok tt, w)
commit_of (some t) w = (ok tt, record w { committed = t; tx = none })

-- `client.query('COMMIT')`: with no transaction open it does nothing.
unfoldable pub commit_tx : M ⊤
commit_tx = external (database connection_failure) (λ w. commit_of w.tx w)

abbrev pub drop_tx : World → World
drop_tx w = record w { tx = none }

-- `client.query('ROLLBACK')`: the transaction is gone also where the connection is.
unfoldable pub rollback_tx : M ⊤
rollback_tx w = external (database connection_failure) (pure tt) (drop_tx w)

-- `queue.add(…)`
unfoldable pub enqueue : Job → M ⊤
enqueue job = external queue_failure (λ w. (ok tt, record w { jobs = w.jobs ++ job ∷ [] }))

-- A request that begins on `t`, where `faults` says which of its calls fail.
abbrev pub request_on : Tables → List Bool → World
request_on t faults = record { committed = t; tx = none; faults = faults; jobs = [] }
