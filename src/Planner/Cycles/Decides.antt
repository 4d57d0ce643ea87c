-- ===== src/Planner/Cycles/Decides.antt =====
-- planner.py: the ways `_reject_cycles` can end, and the fuel of its search.
use mathlib.Core.Path.{subst}
use goal_router.Common.{
  ℕ, zero, suc, ◌≤◌, ◌<◌, String, some, List, [], ◌∷◌, ◌≡◌, refl, arith, In, true, false,
  Bool-cases, eq_refl, eq_iff, ◌==◌, if◌then◌else◌, length, inl, inr, ◌⊎◌, ap, All, All-In,
}
use goal_router.Common.Strings.{contains, contains-In}
use goal_router.Common.Dict
use goal_router.Common.Dict.{keys, of_items, get-of_items, of_items-All, length-of_items}
use goal_router.Errors.{Result, ok, err, planner_output_error}
use goal_router.Domain.Platform.{Platform}
use goal_router.Domain.WorkItem.{WorkItem}
use goal_router.Planner.Cycles.{
  Graph, visit_all, visit, neighbours, graph_of, ids_of, reject_cycles, dependency_items,
}
use goal_router.Planner.Cycles.Acyclic.{Leads, needs, onward, contains-nil}

-- How many of the keys are not on the stack.
room : List String → List String → ℕ
room [] stack = 0
room (k ∷ ks) stack = if contains stack k then room ks stack else suc (room ks stack)

room-cons : (ks stack : List String) (id : String) → room ks (id ∷ stack) ≤ room ks stack
unfolding room contains
room-cons [] stack id = omega arith
room-cons (k ∷ ks) stack id = ground (arith, room-cons ks stack id)

contains_later :
    (k : String) (ks : List String) (id : String)
    → contains (k ∷ ks) id ≡ true
    → (k == id) ≡ false
    → contains ks id ≡ true
unfolding contains
contains_later k ks id m other = ground arith

pushed_here :
    (ks stack : List String) (k id : String)
    → (k == id) ≡ true
    → contains stack id ≡ false
    → room (k ∷ ks) (id ∷ stack) < room (k ∷ ks) stack
unfolding room contains
pushed_here ks stack k id same fresh =
    ground (arith, eq_iff k id, eq_iff id k, eq_refl id, room-cons ks stack id)

pushed_later :
    (ks stack : List String) (k id : String)
    → (k == id) ≡ false
    → room ks (id ∷ stack) < room ks stack
    → room (k ∷ ks) (id ∷ stack) < room (k ∷ ks) stack
unfolding room contains
pushed_later ks stack k id other ih = ground (arith, eq_iff k id, eq_iff id k)

room-push :
    (ks stack : List String) (id : String)
    → contains ks id ≡ true
    → contains stack id ≡ false
    → room ks (id ∷ stack) < room ks stack
unfolding contains
room-push [] stack id m fresh = cc
room-push (k ∷ ks) stack id m fresh = elim (Bool-cases (k == id)) [
  | inl same ↦ pushed_here ks stack k id same fresh
  | inr other ↦
      pushed_later ks stack k id other
        (room-push ks stack id (contains_later k ks id m other) fresh)
]

keys-get :
    (graph : Graph) (id : String) {ids : List String}
    → Dict.get graph id ≡ some ids
    → contains (keys graph) id ≡ true
unfolding Dict.get contains
keys-get [] id h = ground arith
keys-get ((k, v) ∷ graph) id {ids} h = elim (Bool-cases (k == id)) [
  | inl same ↦ rw same refl
  | inr other ↦ rw other (keys-get graph id {ids = ids} (ground arith))
]

room-nil : (ks : List String) → room ks [] ≡ length ks
unfolding room contains
room-nil [] = refl
room-nil (k ∷ ks) = ap suc (room-nil ks)

module _ (graph : Graph) where
  -- The outcome of a search: it ends, or it found a cycle.
  abbrev pub Decided : Result (List String) → Type 0
  Decided r =
      ((final : List String) × (r ≡ ok final))
      ⊎ ((r ≡ err planner_output_error) × ((x : String) × Leads graph x x))

  visit_all-decides :
      (go : String → List String → Result (List String)) (ids : List String)
      → ((d : String) (visited : List String) → In d ids → Decided (go d visited))
      → (visited : List String) → Decided (visit_all go ids visited)
  unfolding visit_all
  visit_all-decides go [] each visited = inl (visited, refl)
  visit_all-decides go (id ∷ ids) each visited = elim (each id visited (inl refl)) [
    | inl (next, e) ↦ rw e (visit_all-decides go ids (λ d v i. each d v (inr i)) next)
    | inr (e, cycle) ↦ inr (rw e refl, cycle)
  ]

  -- Every dependency of a node is a node.
  abbrev pub IsComplete : Type 0
  IsComplete =
      (x d : String) (ids : List String)
      → Dict.get graph x ≡ some ids
      → In d ids
      → (more : List String) × (Dict.get graph d ≡ some more)

  neighbours_found :
      (id : String) (ids : List String)
      → Dict.get graph id ≡ some ids
      → neighbours graph id ≡ ok ids
  unfolding neighbours
  neighbours_found id ids found = rw (neighbours, found) refl

  visit_new :
      (fuel : ℕ) (stack : List String) (id : String) (visited ids : List String)
      → contains stack id ≡ false
      → contains visited id ≡ false
      → Dict.get graph id ≡ some ids
      → Decided (visit_all (visit graph fuel (id ∷ stack)) ids visited)
      → Decided (visit graph (suc fuel) stack id visited)
  unfolding visit
  visit_new fuel stack id visited ids fresh new found (inl (next, e)) =
      inl (id ∷ next, rw (fresh, new, neighbours_found id ids found, e) refl)
  visit_new fuel stack id visited ids fresh new found (inr (e, cycle)) =
      inr (rw (fresh, new, neighbours_found id ids found, e) refl, cycle)

  visit_old :
      (fuel : ℕ) (stack : List String) (id : String) (visited : List String)
      → contains stack id ≡ false
      → contains visited id ≡ true
      → Decided (visit graph (suc fuel) stack id visited)
  unfolding visit
  visit_old fuel stack id visited fresh old = inl (visited, rw (fresh, old) refl)

  visit_open :
      (fuel : ℕ) (stack : List String) (id : String) (visited : List String)
      → contains stack id ≡ true
      → Leads graph id id
      → Decided (visit graph (suc fuel) stack id visited)
  unfolding visit
  visit_open fuel stack id visited open_ cycle = inr (rw open_ refl, (id, cycle))

  -- The open calls lead to the next one.
  path_grows :
      (stack : List String) (id d : String) (ids : List String)
      → ((v : String) → contains stack v ≡ true → Leads graph v id)
      → Dict.get graph id ≡ some ids
      → In d ids
      → (v : String) → contains (id ∷ stack) v ≡ true
      → Leads graph v d
  path_grows stack id d ids path found i v m = elim (Bool-cases (id == v)) [
    | inl same ↦ subst (λ x. Leads graph x d) ((eq_iff id v).0 same) (needs ids found i)
    | inr other ↦ onward ids (path v (contains_later id stack v m other)) found i
  ]

  module _ (complete : IsComplete) where
    visit-decides :
        (fuel : ℕ) (stack : List String) (id : String) (visited ids : List String)
        → ((v : String) → contains stack v ≡ true → Leads graph v id)
        → Dict.get graph id ≡ some ids
        → room (keys graph) stack < fuel
        → Decided (visit graph fuel stack id visited)
    visit-decides zero stack id visited ids path found f = absurd (omega arith)
    visit-decides (suc fuel) stack id visited ids path found f =
        elim (Bool-cases (contains stack id)) [
          | inl open_ ↦ visit_open fuel stack id visited open_ (path id open_)
          | inr fresh ↦ elim (Bool-cases (contains visited id)) [
            | inl old ↦ visit_old fuel stack id visited fresh old
            | inr new ↦
                let less = room-push (keys graph) stack id (keys-get graph id found) fresh in
                visit_new fuel stack id visited ids fresh new found (
                  visit_all-decides _ ids
                    (λ d v i.
                      let (more, next) = complete id d ids found i in
                      visit-decides fuel (id ∷ stack) d v more
                        (path_grows stack id d ids path found i) next (omega arith))
                    visited)
          ]
        ]

    -- The search from every root ends when the fuel is more than the number of nodes.
    pub search-decides :
        (fuel : ℕ) (roots : List String)
        → length (keys graph) < fuel
        → ((d : String) → In d roots → (ids : List String) × (Dict.get graph d ≡ some ids))
        → Decided (visit_all (visit graph fuel []) roots [])
    search-decides fuel roots f nodes =
        visit_all-decides _ roots
          (λ d v i.
            let (ids, found) = nodes d i in
            visit-decides fuel [] d v ids (λ x m. absurd (contains-nil x m)) found
              (rw (room-nil (keys graph)) f))
          []

module _ {P : Platform} where
  -- Every dependency names an item of the list.
  abbrev pub IsGrounded : List String → List (WorkItem P) → Type 0
  IsGrounded ids [] = Unit
  IsGrounded ids (item ∷ items) =
      All (λ d. contains ids d ≡ true) item.dependencies × IsGrounded ids items

  grounded_values :
      (ids : List String) (items : List (WorkItem P))
      → IsGrounded ids items
      → All (λ e. All (λ d. contains ids d ≡ true) e.1) (dependency_items items)
  grounded_values ids [] h = tt
  grounded_values ids (item ∷ items) (h, hs) = (h, grounded_values ids items hs)

  keys-dependency_items : (items : List (WorkItem P)) → keys (dependency_items items) ≡ ids_of items
  keys-dependency_items [] = refl
  keys-dependency_items (item ∷ items) = ap (λ r. item.id ∷ r) (keys-dependency_items items)

  length-dependency_items :
      (items : List (WorkItem P)) → length (dependency_items items) ≡ length items
  length-dependency_items [] = refl
  length-dependency_items (item ∷ items) = ap suc (length-dependency_items items)

  graph-node :
      (items : List (WorkItem P)) (d : String)
      → contains (ids_of items) d ≡ true
      → (more : List String) × (Dict.get (graph_of items) d ≡ some more)
  unfolding graph_of
  graph-node items d m =
      get-of_items (dependency_items items) d (rw (keys-dependency_items items) m)

  -- On a list of items whose dependencies are all in the list, the search always ends: it accepts,
  -- or it raises the planner error and some item then needs itself. The fuel is never used up.
  pub reject_cycles-decides :
      (items : List (WorkItem P))
      → IsGrounded (ids_of items) items
      → ((visited : List String) × (reject_cycles items ≡ ok visited))
        ⊎ ((reject_cycles items ≡ err planner_output_error)
            × ((x : String) × Leads (graph_of items) x x))
  unfolding reject_cycles graph_of
  reject_cycles-decides items h =
      search-decides (graph_of items)
        (λ x d ids found i. graph-node items d (
          All-In (λ y. contains (ids_of items) y ≡ true) d ids
            (of_items-All (λ v. All (λ y. contains (ids_of items) y ≡ true) v)
              (dependency_items items) (grounded_values (ids_of items) items h) x found)
            i))
        (suc (length items)) (ids_of items)
        (let a = length-of_items (dependency_items items) in
          let b = length-dependency_items items in omega arith)
        (λ d i. graph-node items d (contains-In (ids_of items) d i))
