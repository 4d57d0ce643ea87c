-- ===== src/Common/Dict.antt =====
-- Python's `dict` with string keys: an association list in the order of insertion.
use goal_router.Common.Distinct.{IsDistinct}
use Prim.Native.Nat.{suc, ◌+◌, ◌≤◌}
use Prim.Native.String.{String}
use mathlib.Core.Path.{◌≡◌, refl, subst, ◌∙◌}
use mathlib.Core.Logic.{inl, inr, ◌⊎◌}
use mathlib.Core.Bool.{Bool, true, false}
use mathlib.Core.Option.{Option, none, some}
use mathlib.Core.List.{List, [], ◌∷◌}
use native.Mathlib.Omega.{arith}
use text.Mathlib.Text.{◌==◌}
use text.Mathlib.TextEquality.{eq_iff}
use text.Mathlib.TextPositions.{compare_refl}
use goal_router.Common.Tests.{if◌then◌else◌, Bool-cases, some-injective}
use goal_router.Common.Lists.{All, length}
use goal_router.Common.Strings.{leb, contains}

abbrev pub Dict {ℓ} : Type ℓ → Type ℓ
Dict V = List (String × V)

leb_of_eq : (k j : String) → (k == j) ≡ true → leb k j ≡ true
leb_of_eq k j h = ground (arith, eq_iff k j, compare_refl j)

module _ {ℓ} {V : Type ℓ} where
  -- `d.get(k)`, and `d[k]` with `none` for the KeyError
  unfoldable pub get : Dict V → String → Option V
  get [] k = none
  get ((j, v) ∷ d) k = if j == k then some v else get d k

  -- `k in d`
  unfoldable pub has : Dict V → String → Bool
  has [] k = false
  has ((j, v) ∷ d) k = if j == k then true else has d k

  -- `d[k] = v`
  unfoldable pub put : Dict V → String → V → Dict V
  put [] k v = (k, v) ∷ []
  put ((j, w) ∷ d) k v = if j == k then (j, v) ∷ d else (j, w) ∷ put d k v

  abbrev pub keys : Dict V → List String
  keys [] = []
  keys ((k, v) ∷ d) = k ∷ keys d

  abbrev pub values : Dict V → List V
  values [] = []
  values ((k, v) ∷ d) = v ∷ values d

  -- `dict(items)`: a later item replaces the value of an earlier one with its key
  unfoldable pub from : Dict V → List (String × V) → Dict V
  from d [] = d
  from d ((k, v) ∷ rest) = from (put d k v) rest

  unfoldable pub of_items : List (String × V) → Dict V
  unfolding from put
  of_items items = from [] items

  place : String → V → Dict V → Dict V
  place k v [] = (k, v) ∷ []
  place k v ((j, w) ∷ d) = if leb k j then (k, v) ∷ (j, w) ∷ d else (j, w) ∷ place k v d

  -- `dict(sorted(d.items()))`
  unfoldable pub sorted_items : Dict V → Dict V
  unfolding place
  sorted_items [] = []
  sorted_items ((k, v) ∷ d) = place k v (sorted_items d)

  pub get-put :
      (d : Dict V) (k j : String) (v : V) → get (put d k v) j ≡ (if k == j then some v else get d j)
  unfolding get put
  get-put [] k j v = refl
  get-put ((i, w) ∷ d) k j v = ground (arith, eq_iff k j, eq_iff i k, eq_iff i j, get-put d k j v)

  get-place :
      (k j : String) (v : V) (d : Dict V)
      → get (place k v d) j ≡ (if k == j then some v else get d j)
  unfolding get place
  get-place k j v [] = refl
  get-place k j v ((i, w) ∷ d) =
      ground (arith, eq_iff k j, eq_iff i k, eq_iff i j, get-place k j v d, leb_of_eq k i)

  -- Sorting the items changes no value.
  pub get-sorted_items : (d : Dict V) (j : String) → get (sorted_items d) j ≡ get d j
  unfolding get sorted_items
  get-sorted_items [] j = refl
  get-sorted_items ((k, v) ∷ d) j =
      ground (arith, get-place k j v (sorted_items d), get-sorted_items d j)

module _ {V : Type 0} (P : V → Type 0) where
  place-All :
      (k : String) (v : V) (d : Dict V) → P v → All P (values d) → All P (values (place k v d))
  unfolding place
  place-All k v [] p h = (p, tt)
  place-All k v ((j, w) ∷ d) p h = elim (Bool-cases (leb k j)) [
    | inl e ↦ rw e (p, h)
    | inr e ↦ rw e (h.0, place-All k v d p h.1)
  ]

  -- Sorting the items keeps what holds of every value.
  pub sorted_items-All : (d : Dict V) → All P (values d) → All P (values (sorted_items d))
  unfolding sorted_items
  sorted_items-All [] h = tt
  sorted_items-All ((k, v) ∷ d) h = place-All k v (sorted_items d) h.0 (sorted_items-All d h.1)

module _ {V : Type 0} where
  length-put : (d : Dict V) (k : String) (v : V) → length (keys (put d k v)) ≤ suc (length (keys d))
  unfolding put
  length-put [] k v = omega arith
  length-put ((j, w) ∷ d) k v = ground (arith, length-put d k v)

  length-from :
      (d : Dict V) (items : List (String × V))
      → length (keys (from d items)) ≤ length (keys d) + length items
  unfolding from
  length-from d [] = omega arith
  length-from d ((k, v) ∷ items) =
      let h = length-from (put d k v) items in let h' = length-put d k v in omega arith

  -- A dict has no more keys than the items it is made of.
  pub length-of_items : (items : List (String × V)) → length (keys (of_items items)) ≤ length items
  unfolding of_items
  length-of_items items = let h = length-from [] items in omega arith

  from-keeps :
      (R : Dict V → Type 0) (Q : String × V → Type 0)
      → ((d : Dict V) (k : String) (v : V) → Q (k, v) → R d → R (put d k v))
      → (d : Dict V) (items : List (String × V)) → All Q items
      → R d
      → R (from d items)
  unfolding from
  from-keeps R Q step d [] h r = r
  from-keeps R Q step d ((k, v) ∷ items) (q, h) r =
      from-keeps R Q step (put d k v) items h (step d k v q r)

  -- What the empty dict has and every assignment keeps holds of the dict of the items.
  pub of_items-keeps :
      (R : Dict V → Type 0) (Q : String × V → Type 0)
      → ((d : Dict V) (k : String) (v : V) → Q (k, v) → R d → R (put d k v))
      → R []
      → (items : List (String × V)) → All Q items
      → R (of_items items)
  unfolding of_items
  of_items-keeps R Q step empty items h = from-keeps R Q step [] items h empty

  get-from :
      (d : Dict V) (items : List (String × V)) (k : String)
      → (contains (keys items) k ≡ true) ⊎ ((v : V) × (get d k ≡ some v))
      → (v : V) × (get (from d items) k ≡ some v)
  unfolding from contains
  get-from d [] k (inl m) = absurd (ground arith)
  get-from d [] k (inr found) = found
  get-from d ((j, w) ∷ items) k h = get-from (put d j w) items k (elim (Bool-cases (j == k)) [
    | inl same ↦ inr (w, get-put d j k w ∙ rw same refl)
    | inr other ↦ elim h [
      | inl m ↦ inl (ground arith)
      | inr (v, found) ↦ inr (v, get-put d j k w ∙ rw other found)
    ]
  ])

  -- Each key of the items is a key of the dict.
  pub get-of_items :
      (items : List (String × V)) (k : String)
      → contains (keys items) k ≡ true
      → (v : V) × (get (of_items items) k ≡ some v)
  unfolding of_items
  get-of_items items k m = get-from [] items k (inl m)

  module _ (P : V → Type 0) where
    put-All :
        (d : Dict V) (k : String) (v : V) → All P (values d) → P v → All P (values (put d k v))
    unfolding put
    put-All [] k v h p = (p, tt)
    put-All ((j, w) ∷ d) k v (h, hs) p = elim (Bool-cases (j == k)) [
      | inl same ↦ rw same (p, hs)
      | inr other ↦ rw other (h, put-All d k v hs p)
    ]

    from-All :
        (d : Dict V) (items : List (String × V))
        → All P (values d)
        → All (λ e. P e.1) items
        → All P (values (from d items))
    unfolding from
    from-All d [] h hs = h
    from-All d ((k, v) ∷ items) h (p, ps) = from-All (put d k v) items (put-All d k v h p) ps

    pub get-All : (d : Dict V) (k : String) {v : V} → All P (values d) → get d k ≡ some v → P v
    unfolding get
    get-All [] k h e = absurd (ground arith)
    get-All ((j, w) ∷ d) k {v} (h, hs) e = elim (Bool-cases (j == k)) [
      | inl same ↦ subst P (some-injective (rw same at e)) h
      | inr other ↦ get-All d k hs (rw other at e)
    ]

    -- What holds of every item holds of every value.
    pub of_items-All :
        (items : List (String × V))
        → All (λ e. P e.1) items
        → (k : String) {v : V} → get (of_items items) k ≡ some v
        → P v
    unfolding of_items
    of_items-All items h k e = get-All (from [] items) k (from-All [] items tt h) e

tail_absent :
    (k i : String) (ks : List String) → contains (i ∷ ks) k ≡ false → contains ks k ≡ false
unfolding contains
tail_absent k i ks h = ground arith

-- Sorting the items keeps the keys, and what holds of every entry.
module _ {V : Type 0} where
  contains-place :
      (k j : String) (v : V) (d : Dict V)
      → contains (keys (place k v d)) j ≡ contains (k ∷ keys d) j
  unfolding place contains
  contains-place k j v [] = refl
  contains-place k j v ((i, w) ∷ d) = ground (arith, contains-place k j v d)

  contains-sorted_items :
      (d : Dict V) (j : String) → contains (keys (sorted_items d)) j ≡ contains (keys d) j
  unfolding sorted_items contains
  contains-sorted_items [] j = refl
  contains-sorted_items ((k, v) ∷ d) j =
      ground (arith, contains-place k j v (sorted_items d), contains-sorted_items d j)

  ends :
      (k i : String) (v : V) (d : Dict V)
      → contains (i ∷ keys d) k ≡ false
      → contains (keys d) i ≡ false
      → contains (keys (place k v d)) i ≡ false
  unfolding contains
  ends k i v d apart alone = ground (arith, contains-place k i v d, eq_iff i k, eq_iff k i)

  place-IsDistinct :
      (k : String) (v : V) (d : Dict V)
      → contains (keys d) k ≡ false
      → IsDistinct (keys d)
      → IsDistinct (keys (place k v d))
  unfolding place contains
  place-IsDistinct k v [] apart h = (refl, tt)
  place-IsDistinct k v ((i, w) ∷ d) apart (alone, h) = elim (Bool-cases (leb k i)) [
    | inl e ↦ rw e (apart, (alone, h))
    | inr e ↦
        rw e (ends k i v d apart alone, place-IsDistinct k v d (tail_absent k i (keys d) apart) h)
  ]

  pub sorted_items-IsDistinct :
      (d : Dict V) → IsDistinct (keys d) → IsDistinct (keys (sorted_items d))
  unfolding sorted_items
  sorted_items-IsDistinct [] h = tt
  sorted_items-IsDistinct ((k, v) ∷ d) (alone, h) =
      place-IsDistinct k v (sorted_items d) (contains-sorted_items d k ∙ alone)
        (sorted_items-IsDistinct d h)

  module _ (Q : String × V → Type 0) where
    place-entries : (k : String) (v : V) (d : Dict V) → Q (k, v) → All Q d → All Q (place k v d)
    unfolding place
    place-entries k v [] q h = (q, tt)
    place-entries k v ((i, w) ∷ d) q (p, h) = elim (Bool-cases (leb k i)) [
      | inl e ↦ rw e (q, (p, h))
      | inr e ↦ rw e (p, place-entries k v d q h)
    ]

    pub sorted_items-entries : (d : Dict V) → All Q d → All Q (sorted_items d)
    unfolding sorted_items
    sorted_items-entries [] h = tt
    sorted_items-entries ((k, v) ∷ d) (q, h) =
        place-entries k v (sorted_items d) q (sorted_items-entries d h)
