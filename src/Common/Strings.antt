-- ===== src/Common/Strings.antt =====
-- Python's order on `str` (by code points, as the native comparison), `sorted`, `frozenset`, `in`
-- and `join`. A `frozenset` of strings is the list of its elements in increasing order.
use mathlib.Core.Logic.{inl, inr}
use goal_router.Common.Lists.{In, All}
use Prim.Native.Nat.{Ordering}
use Prim.Native.String.{String, compare, ◌++◌}
use mathlib.Core.Path.{◌≡◌, refl, ap, ◌∙◌}
use mathlib.Core.Bool.{Bool, true, false}
use mathlib.Core.List.{List, [], ◌∷◌}
use native.Mathlib.Omega.{arith}
use text.Mathlib.Text.{◌==◌}
use text.Mathlib.TextEquality.{eq_iff, path_by_compare}
use goal_router.Common.Tests.{if◌then◌else◌, Bool-cases}

-- `s <= t`
abbrev pub leb : String → String → Bool
leb s t = elim (compare s t) [ Ordering.gt ↦ false | _ ↦ true ]

-- `s in xs`, for a list or a set of strings
unfoldable pub contains : List String → String → Bool
contains [] s = false
contains (x ∷ xs) s = if x == s then true else contains xs s

insert : String → List String → List String
insert s [] = s ∷ []
insert s (x ∷ xs) = if leb s x then s ∷ x ∷ xs else x ∷ insert s xs

-- `sorted(xs)`, which is stable
unfoldable pub sort : List String → List String
unfolding insert
sort [] = []
sort (x ∷ xs) = insert x (sort xs)

add_by : Ordering → String → String → List String → List String → List String
add_by Ordering.lt s x xs more = s ∷ x ∷ xs
add_by Ordering.eq s x xs more = x ∷ xs
add_by Ordering.gt s x xs more = x ∷ more

-- the set with one more element
unfoldable pub add : String → List String → List String
unfolding add_by
add s [] = s ∷ []
add s (x ∷ xs) = add_by (compare s x) s x xs (add s xs)

-- `frozenset(xs)`
unfoldable pub frozenset : List String → List String
unfolding add
frozenset [] = []
frozenset (x ∷ xs) = add x (frozenset xs)

abbrev pub HeadAbove : String → List String → Type 0
HeadAbove s [] = Unit
HeadAbove s (x ∷ xs) = compare s x ≡ Ordering.lt

-- The list stands for a set: its elements increase.
abbrev pub IsIncreasing : List String → Type 0
IsIncreasing [] = Unit
IsIncreasing (x ∷ xs) = HeadAbove x xs × IsIncreasing xs

-- `separator.join(parts)`
unfoldable pub join : String → List String → String
join separator [] = ""
join separator (part ∷ []) = part
join separator (part ∷ next ∷ rest) = part ++ (separator ++ join separator (next ∷ rest))

insert_lt :
    (s x : String) (xs : List String) → compare s x ≡ Ordering.lt → insert s (x ∷ xs) ≡ s ∷ x ∷ xs
unfolding insert
insert_lt s x xs h = ground (arith, h)

add_lt : (s x : String) (xs : List String) → compare s x ≡ Ordering.lt → add s (x ∷ xs) ≡ s ∷ x ∷ xs
unfolding add
add_lt s x xs h = ground (arith, h)

pub sort-IsSet : (xs : List String) → IsIncreasing xs → sort xs ≡ xs
unfolding sort
sort-IsSet [] h = refl
sort-IsSet (x ∷ []) h = refl
sort-IsSet (x ∷ y ∷ ys) h = ap (insert x) (sort-IsSet (y ∷ ys) h.1) ∙ insert_lt x y ys h.0

pub frozenset-IsSet : (xs : List String) → IsIncreasing xs → frozenset xs ≡ xs
unfolding frozenset
frozenset-IsSet [] h = refl
frozenset-IsSet (x ∷ []) h = refl
frozenset-IsSet (x ∷ y ∷ ys) h = ap (add x) (frozenset-IsSet (y ∷ ys) h.1) ∙ add_lt x y ys h.0

contains-add : (s t : String) (xs : List String) → contains (add s xs) t ≡ contains (s ∷ xs) t
unfolding contains add
contains-add s t [] = refl
contains-add s t (x ∷ xs) =
    ground (arith, contains-add s t xs, path_by_compare s x, eq_iff s t, eq_iff x t)

pub contains-frozenset : (xs : List String) (t : String) → contains (frozenset xs) t ≡ contains xs t
unfolding frozenset contains
contains-frozenset [] t = refl
contains-frozenset (x ∷ xs) t =
    contains-add x t (frozenset xs)
    ∙ ap (λ rest. if x == t then true else rest) (contains-frozenset xs t)

pub contains-In : (xs : List String) (s : String) → In s xs → contains xs s ≡ true
unfolding contains
contains-In [] s m = absurd m
contains-In (x ∷ xs) s (inl e) = ground (arith, eq_iff x s)
contains-In (x ∷ xs) s (inr m) = ground (arith, contains-In xs s m)

module _ (Q : String → Type 0) where
  insert-All : (s : String) (xs : List String) → Q s → All Q xs → All Q (insert s xs)
  unfolding insert
  insert-All s [] q h = (q, tt)
  insert-All s (x ∷ xs) q (p, h) = elim (Bool-cases (leb s x)) [
    | inl e ↦ rw e (q, (p, h))
    | inr e ↦ rw e (p, insert-All s xs q h)
  ]

  -- Sorting keeps what holds of every text.
  pub sort-All : (xs : List String) → All Q xs → All Q (sort xs)
  unfolding sort
  sort-All [] h = tt
  sort-All (x ∷ xs) (q, h) = insert-All x (sort xs) q (sort-All xs h)
