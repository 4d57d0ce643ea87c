-- ===== src/Planner/Cycles/Acyclic.antt =====
-- planner.py: `_reject_cycles` when it accepts.
use goal_router.Domain.WorkItem.{WorkItem}
use goal_router.Domain.Platform.{Platform}
use mathlib.Core.Path.{subst}
use goal_router.Common.{
  ℕ, zero, suc, ◌<◌, String, some, List, [], ◌∷◌, ◌≡◌, refl, arith, All, In, true, false,
  Bool-cases, eq_iff, if◌then◌else◌, length, inl, inr, ◌⊎◌, eq_refl, ◌≢◌, ◌≤◌, some-injective, sym,
  ◌∙◌, ap, All-In,
}
use goal_router.Common.Strings.{contains}
use goal_router.Common.Dict
use goal_router.Errors.{Result, ok, ok-injective, >>=-eq-ok, ◌>>=◌}
use goal_router.Planner.Cycles.{
  Graph, visit_all, visit, neighbours, reject_cycles, graph_of, ids_of,
}

module _ (graph : Graph) where
  -- Every entry of the list has its dependencies further down the list.
  abbrev pub IsClosed : List String → Type 0
  IsClosed [] = Unit
  IsClosed (x ∷ rest) =
      ((ids : List String) × (Dict.get graph x ≡ some ids) × All (λ d. contains rest d ≡ true) ids)
      × IsClosed rest

  -- The later list has all that the earlier has.
  abbrev pub Extends : List String → List String → Type 0
  Extends xs ys = (s : String) → contains xs s ≡ true → contains ys s ≡ true

  -- What a visit of `id` promises, when it succeeds.
  abbrev pub Promises : (String → List String → Result (List String)) → Type 0
  Promises go =
      (id : String) (visited final : List String)
      → go id visited ≡ ok final
      → IsClosed visited
      → IsClosed final × Extends visited final × (contains final id ≡ true)

  visit_all-IsClosed :
      (go : String → List String → Result (List String))
      → Promises go
      → (ids visited final : List String) → visit_all go ids visited ≡ ok final
      → IsClosed visited
      → IsClosed final × Extends visited final × All (λ d. contains final d ≡ true) ids
  unfolding visit_all
  visit_all-IsClosed go promise [] visited final h c =
      let e : visited ≡ final = ok-injective h in
      (subst IsClosed e c, λ s k. subst (λ v. contains v s ≡ true) e k, tt)
  visit_all-IsClosed go promise (id ∷ ids) visited final h c =
      let (next, first, rest) = >>=-eq-ok (go id visited) (visit_all go ids) h in
      let (c', e', m) = promise id visited next first c in
      let (c'', e'', ms) = visit_all-IsClosed go promise ids next final rest c' in
      (c'', λ s k. e'' s (e' s k), (e'' id m, ms))

  -- The three ends of a visit: a cycle, an old node, or a new one after its dependencies.
  visit_cases :
      (fuel : ℕ) (visiting : List String) (id : String) (visited final : List String)
      → visit graph (suc fuel) visiting id visited ≡ ok final
      → (contains visited id ≡ true) × (visited ≡ final)
        ⊎ ((ids next : List String) × (Dict.get graph id ≡ some ids)
            × (visit_all (visit graph fuel (id ∷ visiting)) ids visited ≡ ok next)
            × (id ∷ next ≡ final))
  unfolding visit
  visit_cases fuel visiting id visited final h = elim (Bool-cases (contains visiting id)) [
    | inl open_ ↦ absurd (ground arith)
    | inr fresh ↦ elim (Bool-cases (contains visited id)) [
      | inl old ↦ inl (old, ground arith)
      | inr new ↦
          let h' : (neighbours graph id >>= λ ids.
          visit_all (visit graph fuel (id ∷ visiting)) ids visited >>= λ v. ok (id ∷ v))
              ≡ ok final =
            rw (fresh, new) at h in
          let (ids, found, rest) = >>=-eq-ok (neighbours graph id) _ h' in
          let (next, inner, done) =
            >>=-eq-ok (visit_all (visit graph fuel (id ∷ visiting)) ids visited) _ rest in
          inr (ids, next, ground (arith, found), inner, ok-injective done)
    ]
  ]

  contains_self : (id : String) (xs : List String) → contains (id ∷ xs) id ≡ true
  unfolding contains
  contains_self id xs = rw (eq_refl id) refl

  contains_cons :
      (x : String) (xs : List String) (s : String)
      → contains xs s ≡ true
      → contains (x ∷ xs) s ≡ true
  unfolding contains
  contains_cons x xs s h = ground arith

  no_fuel :
      (visiting : List String) (id : String) (visited final : List String)
      → visit graph zero visiting id visited ≢ ok final
  unfolding visit
  no_fuel visiting id visited final h = cc

  pub visit-IsClosed : (fuel : ℕ) (visiting : List String) → Promises (visit graph fuel visiting)
  visit-IsClosed zero visiting id visited final h c = absurd (no_fuel visiting id visited final h)
  visit-IsClosed (suc fuel) visiting id visited final h c =
      elim (visit_cases fuel visiting id visited final h) [
        | inl (old, e) ↦ (
          subst IsClosed e c,
          λ s k. subst (λ v. contains v s ≡ true) e k,
          subst (λ v. contains v id ≡ true) e old,
        )
        | inr (ids, next, found, inner, e) ↦
            let (c', e', ms) =
              visit_all-IsClosed (visit graph fuel (id ∷ visiting))
                (visit-IsClosed fuel (id ∷ visiting)) ids visited next inner c in
            (
              subst IsClosed e ((ids, found, ms), c'),
              λ s k. subst (λ v. contains v s ≡ true) e (contains_cons id next s (e' s k)),
              subst (λ v. contains v id ≡ true) e (contains_self id next),
            )
      ]

-- The items of a plan that one item needs, directly or not.
pub data Leads (graph : Graph) (x : String) : String → Type 0 where
  needs :
      {y : String} (ids : List String) → Dict.get graph x ≡ some ids → In y ids → Leads graph x y
  onward :
      {y z : String} (ids : List String)
      → Leads graph x y
      → Dict.get graph y ≡ some ids
      → In z ids
      → Leads graph x z

-- the place of the last occurrence, counted from the end
height : List String → String → ℕ
height [] s = 0
height (x ∷ rest) s = if contains rest s then height rest s else suc (length rest)

height-le : (xs : List String) (s : String) → height xs s ≤ length xs
unfolding height
height-le [] s = omega arith
height-le (x ∷ rest) s = ground (arith, height-le rest s)

pub contains-nil : (s : String) → contains [] s ≢ true
unfolding contains
contains-nil s h = cc

height_deep :
    (x : String) (rest : List String) (s d : String)
    → contains rest s ≡ true
    → contains rest d ≡ true
    → height rest d < height rest s
    → height (x ∷ rest) d < height (x ∷ rest) s
unfolding height
height_deep x rest s d hs hd l = ground arith

height_last :
    (x : String) (rest : List String) (s d : String)
    → contains rest s ≡ false
    → contains rest d ≡ true
    → height (x ∷ rest) d < height (x ∷ rest) s
unfolding height
height_last x rest s d hs hd = ground (arith, height-le rest d)

first_entry :
    (x : String) (rest : List String) (s : String)
    → contains (x ∷ rest) s ≡ true
    → contains rest s ≡ false
    → x ≡ s
unfolding contains
first_entry x rest s h k = ground (arith, eq_iff x s)

module _ (graph : Graph) where
  -- In a closed list the dependencies of an entry stand lower.
  lower :
      (xs : List String) (s d : String) (ids : List String)
      → IsClosed graph xs
      → contains xs s ≡ true
      → Dict.get graph s ≡ some ids
      → In d ids
      → (contains xs d ≡ true) × (height xs d < height xs s)
  lower [] s d ids c m e i = absurd (contains-nil s m)
  lower (x ∷ rest) s d ids ((ids', found, below), c) m e i = elim (Bool-cases (contains rest s)) [
    | inl deep ↦
        let (k, l) = lower rest s d ids c deep e i in
        (contains_cons graph x rest d k, height_deep x rest s d deep k l)
    | inr last ↦
        let same : ids' ≡ ids =
          some-injective (sym found ∙ ap (Dict.get graph) (first_entry x rest s m last) ∙ e) in
        let k =
          All-In (λ b. contains rest b ≡ true) d ids
            (subst (All (λ b. contains rest b ≡ true)) same below) i in
        (contains_cons graph x rest d k, height_last x rest s d last k)
  ]

  Leads-lower :
      (xs : List String) (s d : String)
      → IsClosed graph xs
      → contains xs s ≡ true
      → Leads graph s d
      → (contains xs d ≡ true) × (height xs d < height xs s)
  Leads-lower xs s d c m (needs ids e i) = lower xs s d ids c m e i
  Leads-lower xs s d c m (onward {y = y} ids l e i) =
      let (m', h) = Leads-lower xs s y c m l in
      let (m'', h') = lower xs y d ids c m' e i in (m'', omega arith)

-- A list of items that the search accepts has no item that needs itself, directly or not.
pub reject_cycles-acyclic :
    {P : Platform} (items : List (WorkItem P)) {visited : List String}
    → reject_cycles items ≡ ok visited
    → (id : String) → In id (ids_of items)
    → ¬ Leads (graph_of items) id id
unfolding reject_cycles
reject_cycles-acyclic items {visited} h id i cycle =
    let graph = graph_of items in
    let (c, _, all_) =
      visit_all-IsClosed graph _ (visit-IsClosed graph (suc (length items)) []) (ids_of items) []
        visited h tt in
    let m = All-In (λ d. contains visited d ≡ true) id (ids_of items) all_ i in
    let (_, below) = Leads-lower graph visited id id c m cycle in absurd (omega arith)
