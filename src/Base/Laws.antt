-- ===== src/Base/Laws.antt =====
-- Predicates and tests on lists under the writes of a table: a row appended, rows updated.
use mathlib.Core.Path.{◌≡◌, refl, ◌∙◌}
use mathlib.Core.Logic.{inl, inr}
use mathlib.Core.Bool.{Bool, true, false, ◌||◌}
use mathlib.Core.Option.{none, some}
use mathlib.Core.List.{List, [], ◌∷◌, ◌++◌}
use native.Mathlib.Omega.{arith}
use vanguard_settlement_engi.Base.Tests.{Bool-cases}
use vanguard_settlement_engi.Base.Lists.{All, any, find?, update_where}

module _ {ℓ} {A : Type ℓ} where
  pub any-append :
      (test : A → Bool) (xs ys : List A) → any test (xs ++ ys) ≡ (any test xs || any test ys)
  any-append test [] ys = refl
  any-append test (x ∷ xs) ys = ground (arith, any-append test xs ys)

  pub any-ext : (p q : A → Bool) (xs : List A) → ((x : A) → p x ≡ q x) → any p xs ≡ any q xs
  any-ext p q [] h = refl
  any-ext p q (x ∷ xs) h = ground (arith, h x, any-ext p q xs h)

  -- An update that keeps what the test reads.
  pub any-update_where :
      (test where_ : A → Bool) (f : A → A) (xs : List A)
      → ((x : A) → test (f x) ≡ test x)
      → any test (update_where where_ f xs) ≡ any test xs
  any-update_where test where_ f [] h = refl
  any-update_where test where_ f (x ∷ xs) h =
      ground (arith, h x, any-update_where test where_ f xs h)

module _ {ℓ κ λ'} {A : Type ℓ} where
  pub All-map :
      (P : A → Type κ) (Q : A → Type λ') (xs : List A) → ((x : A) → P x → Q x) → All P xs → All Q xs
  All-map P Q [] h all = tt
  All-map P Q (x ∷ xs) h (p, all) = (h x p, All-map P Q xs h all)

  pub All-zip :
      (P : A → Type κ) (Q : A → Type λ') (xs : List A)
      → All P xs
      → All Q xs
      → All (λ x. P x × Q x) xs
  All-zip P Q [] ps qs = tt
  All-zip P Q (x ∷ xs) (p, ps) (q, qs) = ((p, q), All-zip P Q xs ps qs)

  pub All-update_where :
      (P : A → Type κ) (Q : A → Type λ') (test : A → Bool) (f : A → A) (xs : List A)
      → ((x : A) → P x → test x ≡ true → Q (f x))
      → ((x : A) → P x → test x ≡ false → Q x)
      → All P xs
      → All Q (update_where test f xs)
  All-update_where P Q test f [] hit miss all = tt
  All-update_where P Q test f (x ∷ xs) hit miss (p, all) = (
    elim (Bool-cases (test x)) [ inl e ↦ rw e (hit x p e) | inr e ↦ rw e (miss x p e) ],
    All-update_where P Q test f xs hit miss all,
  )

module _ {ℓ κ} {A : Type ℓ} where
  pub All-append : (P : A → Type κ) (xs : List A) (y : A) → All P xs → P y → All P (xs ++ y ∷ [])
  All-append P [] y all p = (p, tt)
  All-append P (x ∷ xs) y (q, all) p = (q, All-append P xs y all p)

  pub All-find? :
      (P : A → Type κ) (test : A → Bool) (xs : List A) {x : A}
      → All P xs
      → find? test xs ≡ some x
      → P x × (test x ≡ true)
  All-find? P test [] all e = absurd (cc)
  All-find? P test (x ∷ xs) (p, all) e = elim (Bool-cases (test x)) [
    | inl hit ↦ ground (arith)
    | inr miss ↦ All-find? P test xs all (ground arith)
  ]

module _ {ℓ} {A : Type ℓ} where
  -- No two rows agree on a column that `clash` compares.
  abbrev pub AllDistinct : (A → A → Bool) → List A → Type 0
  AllDistinct clash [] = Unit
  AllDistinct clash (x ∷ xs) = (any (clash x) xs ≡ false) × AllDistinct clash xs

  pub AllDistinct-append :
      (clash : A → A → Bool) (xs : List A) (y : A)
      → ((x : A) → clash x y ≡ clash y x)
      → AllDistinct clash xs
      → any (clash y) xs ≡ false
      → AllDistinct clash (xs ++ y ∷ [])
  AllDistinct-append clash [] y same all new = (refl, tt)
  AllDistinct-append clash (x ∷ xs) y same (h, all) new = (
    ground (arith, any-append (clash x) xs (y ∷ []), same x),
    AllDistinct-append clash xs y same all (ground arith),
  )

  pub AllDistinct-update_where :
      (clash : A → A → Bool) (test : A → Bool) (f : A → A) (xs : List A)
      → ((x y : A) → clash x (f y) ≡ clash x y)
      → ((x y : A) → clash (f x) y ≡ clash x y)
      → AllDistinct clash xs
      → AllDistinct clash (update_where test f xs)
  AllDistinct-update_where clash test f [] right left all = tt
  AllDistinct-update_where clash test f (x ∷ xs) right left (h, all) = (
    elim (Bool-cases (test x)) [
      | inl e ↦ rw e (
          any-update_where (clash (f x)) test f xs (right (f x))
          ∙ any-ext (clash (f x)) (clash x) xs (left x)
          ∙ h)
      | inr e ↦ rw e (any-update_where (clash x) test f xs (right x) ∙ h)
    ],
    AllDistinct-update_where clash test f xs right left all,
  )

  none_clash :
      (test : A → Bool) (clash : A → A → Bool) (x : A) (xs : List A)
      → test x ≡ true
      → ((y : A) → test x ≡ true → test y ≡ true → clash x y ≡ true)
      → any (clash x) xs ≡ false
      → All (λ y. test y ≡ true → ⊥) xs
  none_clash test clash x [] hit same h = tt
  none_clash test clash x (y ∷ ys) hit same h =
      ((λ t. ground (arith, same y hit t)), none_clash test clash x ys hit same (ground arith))

  -- Where a column tells rows apart, every row with the value is the one that is found.
  pub find?-only :
      (test : A → Bool) (clash : A → A → Bool) (xs : List A) {u : A}
      → ((x y : A) → test x ≡ true → test y ≡ true → clash x y ≡ true)
      → AllDistinct clash xs
      → find? test xs ≡ some u
      → All (λ x. test x ≡ true → x ≡ u) xs
  find?-only test clash [] same all e = tt
  find?-only test clash (x ∷ xs) {u} same (h, all) e = elim (Bool-cases (test x)) [
    | inl hit ↦ (
      (λ _. ground arith),
      All-map _ _ xs (λ y q t. absurd (ground (arith, q t)))
          (none_clash test clash x xs hit (same x) h),
    )
    | inr miss ↦ ((λ t. absurd (cc)), find?-only test clash xs same all (ground arith))
  ]

pub find?-update_where :
    {A : Type 0} (p : A → Bool) (f : A → A) (xs : List A) (u : A)
    → ((x : A) → p (f x) ≡ p x)
    → find? p xs ≡ some u
    → find? p (update_where p f xs) ≡ some (f u)
find?-update_where p f [] u same e = cc
find?-update_where p f (x ∷ xs) u same e = ground (arith, same x, find?-update_where p f xs u same)

pub find?-append :
    {A : Type 0} (p : A → Bool) (xs : List A) (a : A)
    → find? p xs ≡ none
    → p a ≡ true
    → find? p (xs ++ a ∷ []) ≡ some a
find?-append p [] a h e = rw e refl
find?-append p (x ∷ xs) a h e = ground (arith, find?-append p xs a)

-- Where nothing has `q`, nothing is found with `p`, which is stronger.
pub find?-none :
    {A : Type 0} (p q : A → Bool) (xs : List A)
    → ((a : A) → p a ≡ true → q a ≡ true)
    → any q xs ≡ false
    → find? p xs ≡ none
find?-none p q [] k h = refl
find?-none p q (x ∷ xs) k h = ground (arith, k x, find?-none p q xs k)
