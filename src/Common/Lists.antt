-- ===== src/Common/Lists.antt =====
-- Lists measured by native numbers, the built-ins `any`, `all`, comprehensions and slices.
use Prim.Native.Nat.{ℕ, zero, suc}
use mathlib.Core.Path.{◌≡◌, refl, sym, ◌∙◌, ap, subst}
use mathlib.Core.Logic.{◌⊎◌, inl, inr}
use mathlib.Core.Bool.{Bool, true, false, ◌&&◌, ◌||◌}
use mathlib.Core.List.{List, [], ◌∷◌}
use native.Mathlib.Omega.{arith}
use goal_router.Common.Tests.{if◌then◌else◌, Bool-cases}

module _ {ℓ} {A : Type ℓ} where
  abbrev pub length : List A → ℕ
  length [] = 0
  length (x ∷ xs) = suc (length xs)

  -- `xs[:n]`
  abbrev pub take : ℕ → List A → List A
  take zero xs = []
  take (suc n) [] = []
  take (suc n) (x ∷ xs) = x ∷ take n xs

  -- `any(test(x) for x in xs)`
  abbrev pub any : (A → Bool) → List A → Bool
  any test [] = false
  any test (x ∷ xs) = test x || any test xs

  -- `all(test(x) for x in xs)`
  abbrev pub all : (A → Bool) → List A → Bool
  all test [] = true
  all test (x ∷ xs) = test x && all test xs

  -- `[x for x in xs if test(x)]`
  abbrev pub filter : (A → Bool) → List A → List A
  filter test [] = []
  filter test (x ∷ xs) = if test x then x ∷ filter test xs else filter test xs

  abbrev pub All {κ} : (A → Type κ) → List A → Type κ
  All P [] = Unit
  All P (x ∷ xs) = P x × All P xs

module _ {A : Type 0} where
  -- `a` is one of the elements.
  abbrev pub In : A → List A → Type 0
  In a [] = ⊥
  In a (x ∷ xs) = (x ≡ a) ⊎ In a xs

  pub All-In {κ} : (P : A → Type κ) (a : A) (xs : List A) → All P xs → In a xs → P a
  All-In P a [] h m = absurd m
  All-In P a (x ∷ xs) h (inl e) = subst P e h.0
  All-In P a (x ∷ xs) h (inr m) = All-In P a xs h.1 m

  pub All-Unit : (xs : List A) → All (λ _. Unit {0}) xs
  All-Unit [] = tt
  All-Unit (x ∷ xs) = (tt, All-Unit xs)

  pub all-In :
      (test : A → Bool) (a : A) (xs : List A) → all test xs ≡ true → In a xs → test a ≡ true
  all-In test a [] h m = absurd m
  all-In test a (x ∷ xs) h (inl e) = ground (arith, ap test e)
  all-In test a (x ∷ xs) h (inr m) = all-In test a xs (ground arith) m

  pub any-In :
      (test : A → Bool) (a : A) (xs : List A) → any test xs ≡ false → In a xs → test a ≡ false
  any-In test a [] h m = absurd m
  any-In test a (x ∷ xs) h (inl e) = ground (arith, ap test e)
  any-In test a (x ∷ xs) h (inr m) = any-In test a xs (ground arith) m

  In-filter_step :
      (test : A → Bool) (a x : A) (xs : List A)
      → (In a (filter test xs) → In a xs × (test a ≡ true))
      → In a (filter test (x ∷ xs))
      → In a (x ∷ xs) × (test a ≡ true)
  In-filter_step test a x xs rest = go (test x) refl
    where
      go :
          (b : Bool)
          → test x ≡ b
          → In a (if b then x ∷ filter test xs else filter test xs)
          → In a (x ∷ xs) × (test a ≡ true)
      go true e (inl p) = (inl p, ap test (sym p) ∙ e)
      go true e (inr n) = let (i, t) = rest n in (inr i, t)
      go false e n = let (i, t) = rest n in (inr i, t)

  pub In-filter :
      (test : A → Bool) (a : A) (xs : List A) → In a (filter test xs) → In a xs × (test a ≡ true)
  In-filter test a [] m = absurd m
  In-filter test a (x ∷ xs) m = In-filter_step test a x xs (In-filter test a xs) m

  pub filter-In :
      (test : A → Bool) (a : A) (xs : List A) → In a xs → test a ≡ true → In a (filter test xs)
  filter-In test a [] m t = absurd m
  filter-In test a (x ∷ xs) (inl p) t = rw (ap test p ∙ t) (inl p)
  filter-In test a (x ∷ xs) (inr m) t = elim (Bool-cases (test x)) [
    | inl e ↦ rw e (inr (filter-In test a xs m t))
    | inr e ↦ rw e (filter-In test a xs m t)
  ]
