-- ===== src/Common/Items.antt =====
-- Python's `dict(items)` for items whose keys are all different.
use mathlib.Core.Path.{◌≡◌, refl, sym, ap, ◌∙◌, subst}
use mathlib.Core.Bool.{false}
use mathlib.Core.List.{[], ◌∷◌, ◌++◌}
use Prim.Native.String.{String}
use native.Mathlib.Omega.{arith}
use text.Mathlib.Text.{◌==◌}
use text.Mathlib.TextEquality.{eq_iff}
use goal_router.Common.Strings.{contains}
use goal_router.Common.Distinct.{IsDistinct}
use goal_router.Common.Dict.{Dict, put, keys, from, of_items}

module _ {V : Type 0} where
  -- A new key is put at the end.
  put-fresh :
      (d : Dict V) (k : String) (v : V)
      → contains (keys d) k ≡ false
      → put d k v ≡ d ++ ((k, v) ∷ [])
  unfolding put contains
  put-fresh [] k v h = refl
  put-fresh ((j, w) ∷ d) k v h =
      let ih = put-fresh d k v (ground arith) in
      let e : (j == k) ≡ false = ground (arith, eq_iff j k, eq_iff k j) in
      rw e (ap (λ r. (j, w) ∷ r) ih)

  append_nil : (d : Dict V) → d ++ [] ≡ d
  append_nil [] = refl
  append_nil (x ∷ d) = ap (λ r. x ∷ r) (append_nil d)

  append_one : (d items : Dict V) (e : String × V) → (d ++ (e ∷ [])) ++ items ≡ d ++ (e ∷ items)
  append_one [] items e = refl
  append_one (x ∷ d) items e = ap (λ r. x ∷ r) (append_one d items e)

  contains-append :
      (d items : Dict V) (j : String)
      → contains (keys (d ++ items)) j ≡ false
      → (contains (keys d) j ≡ false) × (contains (keys items) j ≡ false)
  unfolding contains
  contains-append [] items j h = (refl, h)
  contains-append ((k, v) ∷ d) items j h =
      let (a, b) = contains-append d items j (ground arith) in (ground arith, b)

  -- A key after others is none of them.
  fresh_key :
      (d items : Dict V) (k : String) (v : V)
      → IsDistinct (keys (d ++ ((k, v) ∷ items)))
      → contains (keys d) k ≡ false
  unfolding contains
  fresh_key [] items k v h = refl
  fresh_key ((j, w) ∷ d) items k v (apart, h) =
      let ih = fresh_key d items k v h in
      let (_, other) = contains-append d ((k, v) ∷ items) j apart in
      ground (arith, eq_iff j k, eq_iff k j)

  from-distinct : (d items : Dict V) → IsDistinct (keys (d ++ items)) → from d items ≡ d ++ items
  unfolding from
  from-distinct d [] h = sym (append_nil d)
  from-distinct d ((k, v) ∷ items) h =
      let e = put-fresh d k v (fresh_key d items k v h) in
      ap (λ (r : Dict V). from r items) e
      ∙ from-distinct (d ++ ((k, v) ∷ [])) items
          (subst (λ (r : Dict V). IsDistinct (keys r)) (sym (append_one d items (k, v))) h)
      ∙ append_one d items (k, v)

  -- Items with different keys are the entries of their dict.
  pub of_items-distinct : (items : Dict V) → IsDistinct (keys items) → of_items items ≡ items
  unfolding of_items
  of_items-distinct items h = from-distinct [] items h
