-- ===== src/Planner/Accepted.antt =====
-- planner.py: the contract of an accepted plan.
use mathlib.Core.Path.{subst}
use goal_router.Common.{
  String, Bool, true, false, not, List, [], ◌∷◌, ◌≡◌, refl, ap, sym, ◌∙◌, All, In, arith, all,
  eq_iff,
}
use goal_router.Common.Strings.{contains}
use goal_router.Common.Distinct.{IsDistinct}
use goal_router.Common.Dict
use goal_router.Common.Dict.{Dict}
use goal_router.Errors.{ok, guard, guard-eq-ok, >>=-eq-ok, ok-injective}
use goal_router.Domain.Platform.{Platform}
use goal_router.Domain.Json.{JsonValue}
use goal_router.Domain.FilePath.{FilePath}
use goal_router.Domain.Enums.{AccessMode}
use goal_router.Domain.Objective.{Objective}
use goal_router.Domain.WorkItem.{WorkItem}
use goal_router.Domain.Fields.{each}
use goal_router.Config.{RouterConfig}
use goal_router.Planner.Fields.{field, mapping, sequence, string, string_tuple, number}
use goal_router.Planner.Cycles.{ids_of, graph_of, reject_cycles}
use goal_router.Planner.Cycles.Acyclic.{Leads, reject_cycles-acyclic}
use goal_router.Planner.Cycles.Decides.{IsGrounded}
use goal_router.Planner.Validation.{
  complete_work_item, parse_work_item, parse_work_items, parse_semantic_work_items,
  check_dependencies, has_verification, affected_path, access_mode,
}

module _ {P : Platform} (config : RouterConfig) where
  -- The task of the item is configured, and an item that writes says how it is verified.
  abbrev pub IsChecked : WorkItem P → Type 0
  IsChecked item =
      (Dict.has config.tasks item.task ≡ true)
      × (has_verification item.access item.verification ≡ true)

  -- A plan: distinct ids, checked items, and dependencies inside the plan that form no cycle.
  pub record IsPlan (items : List (WorkItem P)) : Type 0 where
    pub distinct : IsDistinct (ids_of items)
    pub checked : All IsChecked items
    pub grounded : IsGrounded (ids_of items) items
    pub acyclic : (id : String) → In id (ids_of items) → ¬ Leads (graph_of items) id id

not-true : (b : Bool) → not b ≡ true → b ≡ false
not-true b h = ground arith

-- Ids that are fresh for a longer list are fresh for its tail, and none is its head.
fresh_tail :
    (id : String) (seen ids : List String)
    → All (λ x. contains (id ∷ seen) x ≡ false) ids
    → All (λ x. contains seen x ≡ false) ids × (contains ids id ≡ false)
unfolding contains
fresh_tail id seen [] h = (tt, refl)
fresh_tail id seen (x ∷ ids) (h, hs) =
    let (rest, apart) = fresh_tail id seen ids hs in
    ((ground arith, rest), ground (arith, eq_iff x id, eq_iff id x))

all-All :
    (ids xs : List String) → all (contains ids) xs ≡ true → All (λ d. contains ids d ≡ true) xs
all-All ids [] h = tt
all-All ids (x ∷ xs) h = (ground arith, all-All ids xs (ground arith))

module _ {P : Platform} where
  check_dependencies-IsGrounded :
      (ids : List String) (items : List (WorkItem P))
      → check_dependencies ids items ≡ ok tt
      → IsGrounded ids items
  unfolding check_dependencies
  check_dependencies-IsGrounded ids [] h = tt
  check_dependencies-IsGrounded ids (item ∷ items) h =
      let (_, g, rest) = >>=-eq-ok (guard (all (contains ids) item.dependencies) _) _ h in
      (
        all-All ids item.dependencies (guard-eq-ok _ _ g),
        check_dependencies-IsGrounded ids items rest,
      )

  verified_item :
      (access : AccessMode) (verification : List String) (item : WorkItem P)
      → item.access ≡ access
      → item.verification ≡ verification
      → has_verification access verification ≡ true
      → has_verification item.access item.verification ≡ true
  verified_item access verification item e f h = rw (e, f) h

  module _ (resolve : FilePath → FilePath) (objective : Objective P) (config : RouterConfig) where
    completed :
        (raw : Dict (JsonValue P)) (id task : String) (access : AccessMode)
        (verification : List String) (item : WorkItem P)
        → complete_work_item resolve objective config raw id task access verification ≡ ok item
        → (item.id ≡ id)
          × (item.task ≡ task)
          × (item.access ≡ access)
          × (item.verification ≡ verification)
    unfolding complete_work_item
    completed raw id task access verification item h =
        let (value, _, h1) = >>=-eq-ok (field raw "affected-paths") _ h in
        let (values, _, h2) = >>=-eq-ok (sequence value) _ h1 in
        let (_, _, h3) = >>=-eq-ok (each (affected_path resolve objective config) values) _ h2 in
        let (_, _, h4) = >>=-eq-ok (string raw "title") _ h3 in
        let (_, _, h5) = >>=-eq-ok (string raw "instructions") _ h4 in
        let (_, _, h6) = >>=-eq-ok (string raw "phase") _ h5 in
        let (_, _, h7) = >>=-eq-ok (string_tuple raw "dependencies") _ h6 in
        let (_, _, h8) = >>=-eq-ok (string raw "expected-result") _ h7 in
        let (_, _, h9) = >>=-eq-ok (number raw "confidence") _ h8 in
        let (_, _, h10) = >>=-eq-ok (string_tuple raw "risk-flags") _ h9 in
        let e = ok-injective h10 in
        (
          ap (λ x. x.id) (sym e),
          ap (λ x. x.task) (sym e),
          ap (λ x. x.access) (sym e),
          ap (λ x. x.verification) (sym e),
        )

    item-IsChecked :
        (seen : List String) (raw : Dict (JsonValue P)) (item : WorkItem P)
        → parse_work_item resolve objective config seen raw ≡ ok item
        → (contains seen item.id ≡ false) × IsChecked config item
    unfolding parse_work_item
    item-IsChecked seen raw item h =
        let (id, _, h1) = >>=-eq-ok (string raw "id") _ h in
        let (_, fresh, h2) = >>=-eq-ok (guard (not (contains seen id)) _) _ h1 in
        let (task, _, h3) = >>=-eq-ok (string raw "task") _ h2 in
        let (_, known, h4) = >>=-eq-ok (guard (Dict.has config.tasks task) _) _ h3 in
        let (text, _, h5) = >>=-eq-ok (string raw "access") _ h4 in
        let (access, _, h6) = >>=-eq-ok (access_mode text) _ h5 in
        let (verification, _, h7) = >>=-eq-ok (string_tuple raw "verification") _ h6 in
        let (_, verified, h8) = >>=-eq-ok (guard (has_verification access verification) _) _ h7 in
        let (same_id, same_task, same_access, same_verification) =
          completed raw id task access verification item h8 in
        (
          ap (contains seen) same_id ∙ not-true _ (guard-eq-ok _ _ fresh),
          (
            ap (Dict.has config.tasks) same_task ∙ guard-eq-ok _ _ known,
            verified_item access verification item same_access same_verification
                (guard-eq-ok _ _ verified),
          ),
        )

    items-IsChecked :
        (values : List (JsonValue P)) (seen : List String) (items : List (WorkItem P))
        → parse_work_items resolve objective config seen values ≡ ok items
        → All (λ id. contains seen id ≡ false) (ids_of items)
          × IsDistinct (ids_of items)
          × All (IsChecked config) items
    unfolding parse_work_items
    items-IsChecked [] seen items h =
        subst
          (λ xs.
            All (λ id. contains seen id ≡ false) (ids_of xs)
            × IsDistinct (ids_of xs)
            × All (IsChecked config) xs)
          (ok-injective h) (tt, tt, tt)
    items-IsChecked (value ∷ values) seen items h =
        let (raw, _, h1) = >>=-eq-ok (mapping value) _ h in
        let (item, read, h2) = >>=-eq-ok (parse_work_item resolve objective config seen raw) _ h1 in
        let (rest, more, h3) =
          >>=-eq-ok (parse_work_items resolve objective config (item.id ∷ seen) values) _ h2 in
        let (fresh, checked) = item-IsChecked seen raw item read in
        let (later, distinct, all_checked) = items-IsChecked values (item.id ∷ seen) rest more in
        let (old, apart) = fresh_tail item.id seen (ids_of rest) later in
        subst
          (λ xs.
            All (λ id. contains seen id ≡ false) (ids_of xs)
            × IsDistinct (ids_of xs)
            × All (IsChecked config) xs)
          (ok-injective h3) ((fresh, old), (apart, distinct), (checked, all_checked))

    -- Every plan that the planner accepts has distinct ids, only configured tasks, verification for
    -- each writer, and dependencies that are items of the plan and form no cycle.
    pub parse_semantic_work_items-IsPlan :
        (raw : Dict (JsonValue P)) (items : List (WorkItem P))
        → parse_semantic_work_items resolve objective config raw ≡ ok items
        → IsPlan config items
    unfolding parse_semantic_work_items
    parse_semantic_work_items-IsPlan raw items h =
        let (value, _, h1) = >>=-eq-ok (field raw "work-items") _ h in
        let (values, _, h2) = >>=-eq-ok (sequence value) _ h1 in
        let (found, parsed, h3) =
          >>=-eq-ok (parse_work_items resolve objective config [] values) _ h2 in
        let (_, grounded', h4) = >>=-eq-ok (check_dependencies (ids_of found) found) _ h3 in
        let (visited, accepted, h5) = >>=-eq-ok (reject_cycles found) _ h4 in
        let (_, distinct', checked') = items-IsChecked values [] found parsed in
        subst (IsPlan config) (ok-injective h5) (record {
          distinct = distinct';
          checked = checked';
          grounded = check_dependencies-IsGrounded (ids_of found) found grounded';
          acyclic = reject_cycles-acyclic found accepted;
        })
