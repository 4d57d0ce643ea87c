-- ===== src/Planner/Validation.antt =====
-- src/goalrouter/planner.py: the checks of a decoded plan, `_parse_semantic_work_items`, and
-- `_contained_relative_path`. `Path.resolve` asks the file system, so it is a parameter.
use goal_router.Common.{
  String, Bool, true, false, not, Option, none, some, List, [], ◌∷◌, ◌==◌, if◌then◌else◌, all,
}
use goal_router.Common.Strings.{contains, frozenset}
use goal_router.Common.Dict
use goal_router.Common.Dict.{Dict}
use goal_router.Errors.{Result, ok, err, planner_output_error, value_error, ◌>>=◌, ◌>>◌, guard}
use goal_router.Domain.Platform.{Platform}
use goal_router.Domain.Json.{JsonValue}
use goal_router.Domain.FilePath
use goal_router.Domain.FilePath.{FilePath}
use goal_router.Domain.Enums.{AccessMode, of_value, access_mode_enum}
use goal_router.Domain.Fields.{each}
use goal_router.Domain.Objective.{Objective}
use goal_router.Domain.WorkItem.{WorkItem}
use goal_router.Config.{RouterConfig}
use goal_router.Planner.Fields.{
  field, mapping, sequence, plain_string, string, string_tuple, number,
}
use goal_router.Planner.Cycles.{ids_of, reject_cycles}

-- `path.is_absolute()`
abbrev pub is_absolute : FilePath → Bool
is_absolute path = not (path.root == "")

append : List String → List String → List String
append [] ys = ys
append (x ∷ xs) ys = x ∷ append xs ys

-- `base / path`, for a relative path
unfoldable pub joinpath : FilePath → FilePath → FilePath
unfolding append
joinpath base path = record { root = base.root; parts = append base.parts path.parts }

-- the parts of the path below the base, with `none` for the ValueError
unfoldable pub strip_prefix : List String → List String → Option (List String)
strip_prefix [] parts = some parts
strip_prefix (b ∷ base) [] = none
strip_prefix (b ∷ base) (p ∷ parts) = if b == p then strip_prefix base parts else none

relative : Option (List String) → Result FilePath
relative none = err planner_output_error
relative (some parts') = ok (record { root = ""; parts = parts' })

-- `path.relative_to(base)`, whose ValueError becomes the planner's error
unfoldable pub relative_to : FilePath → FilePath → Result FilePath
unfolding relative strip_prefix
relative_to path base =
    if path.root == base.root
    then relative (strip_prefix base.parts path.parts)
    else err planner_output_error

-- `_contained_relative_path`
unfoldable pub contained_relative_path : (FilePath → FilePath) → String → FilePath → Result FilePath
unfolding joinpath relative_to
contained_relative_path resolve raw project =
    let root = resolve project in
    let candidate = FilePath.of_text raw in
    let resolved =
      if is_absolute candidate then resolve candidate else resolve (joinpath root candidate) in
    relative_to resolved root

-- `AccessMode(raw)`
unfoldable pub access_mode : String → Result AccessMode
access_mode raw = elim (of_value raw) [ none ↦ err value_error | some mode ↦ ok mode ]

-- `access is AccessMode.WORKSPACE_WRITE and not verification`, negated
unfoldable pub has_verification : AccessMode → List String → Bool
has_verification AccessMode.read_only verification = true
has_verification AccessMode.workspace_write [] = false
has_verification AccessMode.workspace_write (v ∷ vs) = true

module _ {P : Platform} where
  -- every dependency of every item is the id of an item
  unfoldable pub check_dependencies : List String → List (WorkItem P) → Result (Unit {0})
  check_dependencies item_ids [] = ok tt
  check_dependencies item_ids (item ∷ items) = do
    guard (all (contains item_ids) item.dependencies) planner_output_error
    check_dependencies item_ids items

  module _ (resolve : FilePath → FilePath) (objective : Objective P) (config : RouterConfig) where
    unfoldable pub affected_path : JsonValue P → Result FilePath
    affected_path value = do
      raw ← plain_string value
      contained_relative_path resolve raw objective.project_path

    -- the fields of an item after its checks
    unfoldable pub complete_work_item :
        Dict (JsonValue P) → String → String → AccessMode → List String → Result (WorkItem P)
    complete_work_item item_raw item_id task' access' verification' = do
      paths_value ← field item_raw "affected-paths"
      path_values ← sequence paths_value
      affected_paths' ← each affected_path path_values
      title' ← string item_raw "title"
      instructions' ← string item_raw "instructions"
      phase' ← string item_raw "phase"
      dependencies' ← string_tuple item_raw "dependencies"
      expected_result' ← string item_raw "expected-result"
      confidence' ← number item_raw "confidence"
      flags ← string_tuple item_raw "risk-flags"
      ok (record {
        id = item_id;
        title = title';
        instructions = instructions';
        task = task';
        phase = phase';
        dependencies = dependencies';
        access = access';
        affected_paths = affected_paths';
        expected_result = expected_result';
        verification = verification';
        confidence = confidence';
        risk_flags = frozenset flags;
      })

    -- the body of the loop, with the ids `seen` so far
    unfoldable pub parse_work_item : List String → Dict (JsonValue P) → Result (WorkItem P)
    parse_work_item seen item_raw = do
      item_id ← string item_raw "id"
      guard (not (contains seen item_id)) planner_output_error
      task' ← string item_raw "task"
      guard (Dict.has config.tasks task') planner_output_error
      access_raw ← string item_raw "access"
      access' ← access_mode access_raw
      verification' ← string_tuple item_raw "verification"
      guard (has_verification access' verification') planner_output_error
      complete_work_item item_raw item_id task' access' verification'

    unfoldable pub parse_work_items : List String → List (JsonValue P) → Result (List (WorkItem P))
    parse_work_items seen [] = ok []
    parse_work_items seen (item_value ∷ values) = do
      item_raw ← mapping item_value
      item ← parse_work_item seen item_raw
      items ← parse_work_items (item.id ∷ seen) values
      ok (item ∷ items)

    unfoldable pub parse_semantic_work_items : Dict (JsonValue P) → Result (List (WorkItem P))
    parse_semantic_work_items raw = do
      items_value ← field raw "work-items"
      item_values ← sequence items_value
      items ← parse_work_items [] item_values
      check_dependencies (ids_of items) items
      visited ← reject_cycles items
      ok items
