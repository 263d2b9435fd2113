-- ===== src/Api/Routes/Answers.antt =====
-- How a route's answer goes with what it has written, and whom a guarded route lets through.
use vanguard_settlement_engi.Base.{
  ℕ, String, true, some, List, [], ◌∷◌, ◌≡◌, ◌⊎◌, inl, inr, refl, sym, subst, arith,
}
use vanguard_settlement_engi.Domain.{JwtPayload, OrgRole}
use vanguard_settlement_engi.Errors.{Result, ok, err}
use vanguard_settlement_engi.Database.{Tables}
use vanguard_settlement_engi.Database.Session.{World, M}
use vanguard_settlement_engi.Database.Guards.{Wrote}
use vanguard_settlement_engi.Api.Authenticate.{
  Verified, valid, Request, Step, passed, replied, authenticate, require_role, ◌then◌, bearer_token,
  includes, require_role-authenticate,
}
use vanguard_settlement_engi.Api.Routes.{
  Response, success, already_recorded, refusal, answered, async_handler, reached,
}

-- `Q` relates the tables before and after a request that writes: a success is answered behind a write
-- only and with its status, and any other answer behind a write or nothing.
abbrev pub Answered :
    {A : Type 0} → (A → ℕ) → (Tables → Tables → Type 0) → World → Response A × World → Type 0
Answered code Q w (success status a, v) = (status ≡ code a) × Q w.committed v.committed
Answered code Q w (already_recorded, v) = (v.committed ≡ w.committed) ⊎ Q w.committed v.committed
Answered code Q w (refusal reply, v) = (v.committed ≡ w.committed) ⊎ Q w.committed v.committed

module _ {A : Type 0} (code : A → ℕ) (Q R : Tables → Tables → Type 0) (w : World)
    (with_facts : (t t' : Tables) → Q t t' → R t t') where
  pub async_handler-Answered :
      (x : Result A × World)
      → Wrote Q w x
      → Answered {A = A} code R w
          (answered (elim x.0 [ ok a ↦ (ok (success (code a) a), x.1) | err e ↦ (err e, x.1) ]))
  async_handler-Answered (ok a, v) (h, q) = (refl, with_facts _ _ q)
  async_handler-Answered (err e, v) (h, inl same) = inl same
  async_handler-Answered (err e, v) (h, inr q) = inr (with_facts _ _ q)

-- The request has a Bearer token of the role.
abbrev pub IsFrom : (String → Verified) → Request → OrgRole → JwtPayload → Type 0
IsFrom verify req role user =
    (token : String) × (bearer_token req.authorization ≡ some token)
    × (verify token ≡ valid user)
    × (user.role ≡ role)

includes-sole : (role allowed : OrgRole) → includes (allowed ∷ []) role ≡ true → role ≡ allowed
includes-sole role allowed h = ground arith

-- The request has a Bearer token of one of the roles.
abbrev pub IsFromOneOf : (String → Verified) → Request → List OrgRole → JwtPayload → Type 0
IsFromOneOf verify req allowed user =
    (token : String) × (bearer_token req.authorization ≡ some token)
    × (verify token ≡ valid user)
    × (includes allowed user.role ≡ true)

pub IsFrom-sole :
    (verify : String → Verified) (req : Request) (role : OrgRole) (user : JwtPayload)
    → IsFromOneOf verify req (role ∷ []) user
    → IsFrom verify req role user
IsFrom-sole verify req role user (token, b, v, h) = (token, b, v, includes-sole user.role role h)

module _ {A : Type 0} (verify : String → Verified) (allowed : List OrgRole) (req : Request)
    (code : A → ℕ) (handler : Request → M (Response A)) (Q : Tables → Tables → Type 0) (w : World)
    (handled : (user : JwtPayload)
      → IsFromOneOf verify req allowed user
      → Answered {A = A} code Q w
          (async_handler (handler (record req { user = some user })) w)) where
  pub reached-Answered :
      Answered {A = A} code Q w
        (reached (authenticate verify req then require_role allowed) handler w)
  reached-Answered = go (authenticate verify req then require_role allowed) refl
    where
      go :
          (s : Step)
          → (authenticate verify req then require_role allowed) ≡ s
          → Answered {A = A} code Q w (reached s handler w)
      go (replied reply) e = inl refl
      go (passed out) e =
          let (token, user, b, v, one_of, same) =
            (require_role-authenticate verify allowed req out).0 e in
          subst (λ o. Answered {A = A} code Q w (async_handler (handler o) w)) (sym same)
            (handled user (token, b, v, one_of))
