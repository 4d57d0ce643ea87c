-- ===== src/Planner/Cycles.antt =====
-- src/goalrouter/planner.py: `_reject_cycles`, a depth-first search over the dependencies. The set
-- `visiting` is the stack of the open calls, so it is passed down; `visited` is passed on. The search
-- takes fuel for its depth; Planner/Cycles/Decides is about how much is enough.
pub mod Acyclic
pub mod Decides
use goal_router.Common.{
  ℕ, zero, suc, String, Option, none, some, List, [], ◌∷◌, length, if◌then◌else◌, map,
}
use goal_router.Common.Strings.{contains}
use goal_router.Common.Dict
use goal_router.Common.Dict.{Dict, of_items}
use goal_router.Errors.{Result, ok, err, planner_output_error, key_error, recursion_error, ◌>>=◌}
use goal_router.Domain.Platform.{Platform}
use goal_router.Domain.WorkItem.{WorkItem}

abbrev pub Graph : Type 0
Graph = Dict (List String)

-- `for dependency in ids: visit(dependency)`
unfoldable pub visit_all :
    (String → List String → Result (List String)) → List String → List String → Result (List String)
visit_all visit [] visited = ok visited
visit_all visit (id ∷ ids) visited = do visited' ← visit id visited; visit_all visit ids visited'

unfoldable pub neighbours : Graph → String → Result (List String)
neighbours graph id = elim (Dict.get graph id) [ none ↦ err key_error | some ids ↦ ok ids ]

-- `visit`, which returns the set `visited`
unfoldable pub visit : Graph → ℕ → List String → String → List String → Result (List String)
unfolding neighbours
visit graph zero visiting id visited = err recursion_error
visit graph (suc fuel) visiting id visited =
    let inner = (do
      ids ← neighbours graph id
      visited' ← visit_all (visit graph fuel (id ∷ visiting)) ids visited
      ok (id ∷ visited')) in
    if contains visiting id
    then err planner_output_error
    else if contains visited id
    then ok visited
    else inner

module _ {P : Platform} where
  abbrev pub dependency_items : List (WorkItem P) → List (String × List String)
  dependency_items [] = []
  dependency_items (item ∷ items) = (item.id, item.dependencies) ∷ dependency_items items

  abbrev pub ids_of : List (WorkItem P) → List String
  ids_of [] = []
  ids_of (item ∷ items) = item.id ∷ ids_of items

  -- `dependencies`
  unfoldable pub graph_of : List (WorkItem P) → Graph
  graph_of items = of_items (dependency_items items)

  unfoldable pub reject_cycles : List (WorkItem P) → Result (List String)
  unfolding graph_of
  reject_cycles items = visit_all (visit (graph_of items) (suc (length items)) []) (ids_of items) []
