-- ===== src/Database/Hoare.antt =====
-- What holds of the tables behind a statement, and the rules that put the steps of a transaction
-- together.
use vanguard_settlement_engi.Base.{Bool, true, false, ⊤, if◌then◌else◌, ◌≡◌, refl, ap}
use vanguard_settlement_engi.Errors.{Thrown, Result, ok, err}
use vanguard_settlement_engi.Database.{Tables, Stmt}
use vanguard_settlement_engi.Database.Session.{M, ◌>>=◌, pure, client_query}
use vanguard_settlement_engi.Database.Atomic.{
  then_stmt, Simulates, >>=-Simulates, pure-Simulates, client_query-Simulates,
}

abbrev pub return_stmt : {A : Type 0} → A → Stmt A
return_stmt a t = ok (a, t)

-- `Q` holds where the statement goes through.
abbrev pub Holds : {A : Type 0} → (A → Tables → Type 0) → Result (A × Tables) → Type 0
Holds Q (ok (a, t)) = Q a t
Holds Q (err e) = ⊤

pub then_stmt-Holds :
    {A B : Type 0} (Q : A → Tables → Type 0) (R : B → Tables → Type 0) (s : Stmt A) (f : A → Stmt B)
    (t : Tables)
    → Holds Q (s t)
    → ((a : A) (t' : Tables) → Q a t' → Holds R (f a t'))
    → Holds R (then_stmt s f t)
then_stmt-Holds {A} Q R s f t h k = go (s t) h
  where
    go :
        (r : Result (A × Tables))
        → Holds Q r
        → Holds R (elim r [ ok (a, t') ↦ f a t' | err e ↦ err e ])
    go (ok (a, t')) q = k a t' q
    go (err e) q = tt

pub Holds-weaken :
    {A : Type 0} (Q R : A → Tables → Type 0) (r : Result (A × Tables))
    → Holds Q r
    → ((a : A) (t : Tables) → Q a t → R a t)
    → Holds R r
Holds-weaken Q R (ok (a, t)) h k = k a t h
Holds-weaken Q R (err e) h k = tt

pub if-Holds :
    {A : Type 0} (Q : A → Tables → Type 0) (b : Bool) (x y : Result (A × Tables))
    → Holds Q x
    → Holds Q y
    → Holds Q (if b then x else y)
if-Holds Q true x y h k = h
if-Holds Q false x y h k = k

-- A test in a transaction is one in its statements.
pub if-Simulates :
    {A : Type 0} (b : Bool) (m n : M A) (s u : Stmt A)
    → Simulates m s
    → Simulates n u
    → Simulates (if b then m else n) (if b then s else u)
if-Simulates true m n s u h k = h
if-Simulates false m n s u h k = k

-- The last statement of a transaction, whose rows are not used.
pub last-Simulates :
    {A E : Type 0} (s : Stmt E) (a : A)
    → Simulates (client_query s >>= λ _. pure a) (then_stmt s (λ _. return_stmt a))
last-Simulates s a =
    >>=-Simulates (client_query s) s (λ _. pure a) (λ _. return_stmt a) (client_query-Simulates s)
      (λ _. pure-Simulates a)

-- A run whose result is put in another form.
pub map-Simulates :
    {A B : Type 0} (m : M A) (s : Stmt A) (g : A → B)
    → Simulates m s
    → Simulates (m >>= λ a. pure (g a)) (then_stmt s (λ a. return_stmt (g a)))
map-Simulates m s g h =
    >>=-Simulates m s (λ a. pure (g a)) (λ a. return_stmt (g a)) h (λ a. pure-Simulates (g a))

-- From what its success says.
pub to_Holds :
    {A : Type 0} (Q : A → Tables → Type 0) (r : Result (A × Tables))
    → ((a : A) (t : Tables) → r ≡ ok (a, t) → Q a t)
    → Holds Q r
to_Holds Q (ok (a, t)) h = h a t refl
to_Holds Q (err e) h = tt

pub both-Holds :
    {A : Type 0} (Q R : A → Tables → Type 0) (r : Result (A × Tables))
    → Holds Q r
    → Holds R r
    → Holds {A = A} (λ a t. Q a t × R a t) r
both-Holds Q R (ok (a, t)) q p = (q, p)
both-Holds Q R (err e) q p = tt

module _ {A B : Type 0} (s : Stmt A) (f : A → Stmt B) (t : Tables) where
  abbrev next : Result (A × Tables) → Result (B × Tables)
  next r = elim r [ ok (a, t') ↦ f a t' | err e ↦ err e ]

  pub then_stmt-ok : (a : A) (t' : Tables) → s t ≡ ok (a, t') → then_stmt s f t ≡ f a t'
  then_stmt-ok a t' e = ap next e

  pub then_stmt-err : (x : Thrown) → s t ≡ err x → then_stmt s f t ≡ err x
  then_stmt-err x e = ap next e
