-- ===== src/Common/Distinct.antt =====
-- Lists whose elements have different labels: the keys of a dict, the identifiers of items.
use Prim.Native.Nat.{ℕ, zero, suc}
use Prim.Native.String.{String}
use mathlib.Core.Path.{◌≡◌, refl}
use mathlib.Core.Logic.{inl, inr}
use mathlib.Core.Bool.{Bool, true, false}
use mathlib.Core.List.{List, [], ◌∷◌}
use native.Mathlib.Omega.{arith}
use goal_router.Common.Tests.{Bool-cases}
use goal_router.Common.Lists.{filter, take, All}
use goal_router.Common.Strings.{contains}

abbrev pub IsDistinct : List String → Type 0
IsDistinct [] = Unit
IsDistinct (x ∷ xs) = (contains xs x ≡ false) × IsDistinct xs

module _ {A : Type 0} where
  -- `[label(x) for x in xs]`
  abbrev pub labels : (A → String) → List A → List String
  labels label [] = []
  labels label (x ∷ xs) = label x ∷ labels label xs

module _ {A : Type 0} (label : A → String) where
  filter-absent :
      (test : A → Bool) (xs : List A) (s : String)
      → contains (labels label xs) s ≡ false
      → contains (labels label (filter test xs)) s ≡ false
  unfolding contains
  filter-absent test [] s h = h
  filter-absent test (x ∷ xs) s h =
      let ih = filter-absent test xs s (ground arith) in
      elim (Bool-cases (test x)) [ inl e ↦ rw e (ground arith) | inr e ↦ rw e ih ]

  pub filter-IsDistinct :
      (test : A → Bool) (xs : List A)
      → IsDistinct (labels label xs)
      → IsDistinct (labels label (filter test xs))
  filter-IsDistinct test [] h = tt
  filter-IsDistinct test (x ∷ xs) (apart, h) = elim (Bool-cases (test x)) [
    | inl e ↦ rw e (filter-absent test xs (label x) apart, filter-IsDistinct test xs h)
    | inr e ↦ rw e (filter-IsDistinct test xs h)
  ]

  take-absent :
      (n : ℕ) (xs : List A) (s : String)
      → contains (labels label xs) s ≡ false
      → contains (labels label (take n xs)) s ≡ false
  unfolding contains
  take-absent zero xs s h = refl
  take-absent (suc n) [] s h = refl
  take-absent (suc n) (x ∷ xs) s h = let ih = take-absent n xs s (ground arith) in ground arith

  pub take-IsDistinct :
      (n : ℕ) (xs : List A) → IsDistinct (labels label xs) → IsDistinct (labels label (take n xs))
  take-IsDistinct zero xs h = tt
  take-IsDistinct (suc n) [] h = tt
  take-IsDistinct (suc n) (x ∷ xs) (apart, h) =
      (take-absent n xs (label x) apart, take-IsDistinct n xs h)

module _ {A : Type 0} (Q : A → Type 0) where
  pub take-All : (n : ℕ) (xs : List A) → All Q xs → All Q (take n xs)
  take-All zero xs h = tt
  take-All (suc n) [] h = tt
  take-All (suc n) (x ∷ xs) (q, h) = (q, take-All n xs h)

  -- Filtering keeps what holds of every element, and the test holds of what is left.
  pub filter-All :
      (test : A → Bool) (xs : List A) → All Q xs → All (λ x. Q x × (test x ≡ true)) (filter test xs)
  filter-All test [] h = tt
  filter-All test (x ∷ xs) (q, h) = elim (Bool-cases (test x)) [
    | inl e ↦ rw e ((q, e), filter-All test xs h)
    | inr e ↦ rw e (filter-All test xs h)
  ]

pub All-map :
    {A : Type 0} (Q R : A → Type 0) → ((x : A) → Q x → R x) → (xs : List A) → All Q xs → All R xs
All-map Q R f [] h = tt
All-map Q R f (x ∷ xs) (q, h) = (f x q, All-map Q R f xs h)

pub filter_empty :
    {A : Type 0} (test : A → Bool) (xs : List A)
    → filter test xs ≡ []
    → All (λ x. test x ≡ false) xs
filter_empty test [] h = tt
filter_empty test (x ∷ xs) h = elim (Bool-cases (test x)) [
  | inl e ↦ absurd (ground arith)
  | inr e ↦ (e, filter_empty test xs (ground arith))
]

pub All-both :
    {A : Type 0} (Q R : A → Type 0) (xs : List A) → All Q xs → All R xs → All (λ x. Q x × R x) xs
All-both Q R [] h k = tt
All-both Q R (x ∷ xs) (q, h) (r, k) = ((q, r), All-both Q R xs h k)
