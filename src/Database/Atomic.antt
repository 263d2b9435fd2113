-- ===== src/Database/Atomic.antt =====
-- Transactions under failures: what runs on the client of an open transaction follows the statements
-- one by one, and `BEGIN … COMMIT` with a ROLLBACK on failure is all or nothing.
use vanguard_settlement_engi.Base.{
  Bool, true, false, Option, some, List, [], ◌∷◌, ◌≡◌, ◌≢◌, ◌⊎◌, inl, inr, refl, ap, ◌∙◌, sym,
  subst,
}
use vanguard_settlement_engi.Errors.{Result, ok, err, database, connection_failure}
use vanguard_settlement_engi.Database.{Tables, Stmt}
use vanguard_settlement_engi.Database.Session.{
  World, M, ◌>>=◌, pure, client_query, external_of, on_client,
}

-- Statements one after the other, with no failures from outside.
abbrev pub then_stmt : {A B : Type 0} → Stmt A → (A → Stmt B) → Stmt B
then_stmt s f t = elim (s t) [ ok (a, t') ↦ f a t' | err e ↦ err e ]

-- How a run that began at `w` on the copy `t` ended, if it follows `s`: with the rows and tables
-- of `s`, or with the error of `s`, or by a failure from outside.
abbrev pub Follows : {A : Type 0} → Result (A × Tables) → World → Result A × World → Type 0
Follows r w (ok a, w') =
    (t' : Tables) × (r ≡ ok (a, t'))
    × (w' ≡ record w { tx = some t'; faults = w'.faults })
    × (w.faults ≡ [] → w'.faults ≡ [])
Follows r w (err e, w') =
    (t' : Tables) × (w' ≡ record w { tx = some t'; faults = w'.faults })
    × ((r ≡ err e) ⊎ ((e ≡ database connection_failure) × (w.faults ≢ [])))
    × (w.faults ≡ [] → w'.faults ≡ [])

abbrev pub Simulates : {A : Type 0} → M A → Stmt A → Type 0
Simulates m s = (w : World) (t : Tables) → w.tx ≡ some t → Follows (s t) w (m w)

module _ {A : Type 0} (s : Stmt A) (w : World) (t : Tables) (open_tx : w.tx ≡ some t) where
  -- the statement itself, once the call went through with `fs` left
  after_call :
      (fs : List Bool) (r : Result (A × Tables))
      → (w.faults ≡ [] → fs ≡ [])
      → Follows r w (elim r [
        | ok (a, t') ↦ (ok a, record w { tx = some t'; faults = fs })
        | err e ↦ (err e, record w { faults = fs })
      ])
  after_call fs (ok (a, t')) k = (t', refl, refl, k)
  after_call fs (err e) k = (t, λ i. record w { tx = open_tx i; faults = fs }, inl refl, k)

  client_query_of :
      (fs : List Bool)
      → w.faults ≡ fs
      → Follows (s t) w (external_of fs (database connection_failure) (λ v. on_client s v.tx v) w)
  client_query_of [] q =
      subst (λ x. Follows (s t) w (on_client s x w)) (sym open_tx)
        (after_call w.faults (s t) (λ h. h))
  client_query_of (true ∷ fs) q =
      (t, λ i. record w { tx = open_tx i; faults = fs }, inr (refl, λ h. cc), λ h. cc)
  client_query_of (false ∷ fs) q =
      subst (λ x. Follows (s t) w (on_client s x (record w { faults = fs }))) (sym open_tx)
        (after_call fs (s t) (λ h. cc))

pub client_query-Simulates : {A : Type 0} (s : Stmt A) → Simulates (client_query s) s
unfolding client_query
client_query-Simulates s w t e = client_query_of s w t e w.faults refl

abbrev resume : Tables → List Bool → World → World
resume t fs u = record u { tx = some t; faults = fs }

abbrev tx_of : World → Option Tables
tx_of u = u.tx

-- A run from `v` is one from `w`, where `v` differs in the copy and in fewer outcomes left.
Follows-from :
    {B : Type 0} (r : Result (B × Tables)) (w v : World) (t : Tables) (x : Result B × World)
    → v ≡ record w { tx = some t; faults = v.faults }
    → (w.faults ≡ [] → v.faults ≡ [])
    → Follows r v x
    → Follows r w x
Follows-from r w v t (ok b, w') same calm (t', e, moved, calm') =
    (t', e, moved ∙ ap (resume t' w'.faults) same, λ h. calm' (calm h))
Follows-from r w v t (err e, w') same calm (t', moved, why, calm') = (
  t',
  moved ∙ ap (resume t' w'.faults) same,
  elim why [ inl same_error ↦ inl same_error | inr (q, busy) ↦ inr (q, λ h. busy (calm h)) ],
  λ h. calm' (calm h),
)

module _ {A B : Type 0} (f : A → M B) (g : A → Stmt B) (k : (a : A) → Simulates (f a) (g a)) where
  bind_after :
      (w : World) (r : Result (A × Tables)) (x : Result A × World)
      → Follows r w x
      → Follows
          (elim r [ ok (a, t') ↦ g a t' | err e ↦ err e ])
          w
          (elim x.0 [ ok a ↦ f a x.1 | err e ↦ (err e, x.1) ])
  bind_after w r (ok a, w') (t', e, same, calm) =
      rw e (Follows-from (g a t') w w' t' (f a w') same calm (k a w' t' (ap tx_of same)))
  bind_after w r (err e, w') (t', same, why, calm) =
      (t', same, elim why [ inl same_error ↦ inl (rw same_error) | inr q ↦ inr q ], calm)

-- Two steps that follow their statements follow them one after the other.
pub >>=-Simulates :
    {A B : Type 0} (m : M A) (s : Stmt A) (f : A → M B) (g : A → Stmt B)
    → Simulates m s
    → ((a : A) → Simulates (f a) (g a))
    → Simulates (m >>= f) (then_stmt s g)
>>=-Simulates m s f g h k w t e = bind_after f g k w (s t) (m w) (h w t e)

pub pure-Simulates : {A : Type 0} (a : A) → Simulates (pure a) (λ t. ok (a, t))
pure-Simulates a w t e = (t, refl, λ i. record w { tx = e i }, λ h. h)
