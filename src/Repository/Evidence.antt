-- ===== src/Repository/Evidence.antt =====
-- repository.py: `_parse_index_entries`, `_parse_tree_entries` and `_parse_nul_paths`. `int` of a
-- text is a parameter, with `none` for the ValueError: it reads every decimal digit of Unicode.
use goal_router.Common.{
  ℕ, String, Bool, true, not, ◌||◌, ◌&&◌, Option, none, some, List, [], ◌∷◌, ◌==◌, if◌then◌else◌,
}
use goal_router.Common.Strings.{contains}
use goal_router.Common.Distinct.{labels}
use goal_router.Common.Integers.{ℤ, pos, leb_ℤ, eqb_ℤ}
use goal_router.Errors.{Result, ok, err, repository_error, ◌>>=◌, ◌>>◌, guard}
use goal_router.Domain.FilePath
use goal_router.Domain.FilePath.{FilePath}
use goal_router.Domain.Fields.{each}
use goal_router.Repository.{GitIndexEntry, GitTreeEntry, gitlink_index_mode, allowed_index_modes}
use goal_router.Repository.Texts.{
  tab, space, split, split_once, split_nul_records, parse_repository_path, validate_object_id,
  require_consistent_object_format,
}

-- `except ValueError`
unfoldable pub or_malformed : {A : Type 0} → Option A → Result A
or_malformed none = err repository_error
or_malformed (some a) = ok a

unfoldable pub four_fields : List String → Option (String × String × String × String)
four_fields (a ∷ b ∷ c ∷ d ∷ []) = some (a, b, c, d)
four_fields _ = none

unfoldable pub three_fields : List String → Option (String × String × String)
three_fields (a ∷ b ∷ c ∷ []) = some (a, b, c)
three_fields _ = none

-- the two tests `(tag == "M") != (stage != 0)` and `0 <= stage <= 3`
abbrev pub is_stage : String → ℤ → Bool
is_stage tag stage =
    let merging = tag == "M" in
    let staged = not (eqb_ℤ stage (pos 0)) in
    leb_ℤ (pos 0) stage && leb_ℤ stage (pos 3) && (if merging then staged else not staged)

-- `tag in {"H", "S", "M"}`
abbrev pub is_tag : String → Bool
is_tag tag = tag == "H" || tag == "S" || tag == "M"

module _ (int : String → Option ℤ) where
  -- one turn of the loop: the entry and the set of lengths
  unfoldable pub parse_index_entry : List ℕ → String → Result (GitIndexEntry × List ℕ)
  unfolding or_malformed four_fields
  parse_index_entry lengths record' = do
    (metadata, raw_path) ← or_malformed (split_once tab record')
    (tag', mode', object_id', raw_stage) ← or_malformed (four_fields (split space metadata))
    stage' ← or_malformed (int raw_stage)
    guard (is_tag tag') repository_error
    guard (contains allowed_index_modes mode') repository_error
    guard (is_stage tag' stage') repository_error
    lengths' ← validate_object_id object_id' lengths
    path' ← parse_repository_path raw_path
    ok (
      record { tag = tag'; mode = mode'; object_id = object_id'; stage = stage'; path = path' },
      lengths',
    )

  unfoldable pub index_entries_of : List ℕ → List String → Result (List GitIndexEntry)
  index_entries_of lengths [] = require_consistent_object_format lengths >> ok []
  index_entries_of lengths (record' ∷ records) = do
    (entry, lengths') ← parse_index_entry lengths record'
    entries ← index_entries_of lengths' records
    ok (entry ∷ entries)

  -- `_parse_index_entries`
  unfoldable pub parse_index_entries : String → Result (List GitIndexEntry)
  parse_index_entries stdout = do records ← split_nul_records stdout; index_entries_of [] records

-- the type that belongs to a mode
abbrev pub expected_type : String → String
expected_type mode = if mode == gitlink_index_mode then "commit" else "blob"

unfoldable pub parse_tree_entry : List ℕ → String → Result (GitTreeEntry × List ℕ)
unfolding or_malformed three_fields
parse_tree_entry lengths record' = do
  (metadata, raw_path) ← or_malformed (split_once tab record')
  (mode', object_type, object_id') ← or_malformed (three_fields (split space metadata))
  guard (contains allowed_index_modes mode' && object_type == expected_type mode') repository_error
  lengths' ← validate_object_id object_id' lengths
  path' ← parse_repository_path raw_path
  ok (record { mode = mode'; object_id = object_id'; path = path' }, lengths')

-- the loop, with the lengths and the paths seen so far; paths are equal if their texts are
unfoldable pub tree_entries_of : List ℕ → List String → List String → Result (List GitTreeEntry)
tree_entries_of lengths seen [] = require_consistent_object_format lengths >> ok []
tree_entries_of lengths seen (record' ∷ records) = do
  (entry, lengths') ← parse_tree_entry lengths record'
  guard (not (contains seen (FilePath.to_text entry.path))) repository_error
  entries ← tree_entries_of lengths' (FilePath.to_text entry.path ∷ seen) records
  ok (entry ∷ entries)

-- `_parse_tree_entries`
unfoldable pub parse_tree_entries : String → Result (List GitTreeEntry)
parse_tree_entries stdout = do records ← split_nul_records stdout; tree_entries_of [] [] records

-- `len(set(texts)) == len(texts)`
unfoldable pub all_differ : List String → Bool
all_differ [] = true
all_differ (x ∷ xs) = not (contains xs x) && all_differ xs

-- `_parse_nul_paths`
unfoldable pub parse_nul_paths : String → Result (List FilePath)
unfolding all_differ
parse_nul_paths stdout = do
  records ← split_nul_records stdout
  paths ← each parse_repository_path records
  guard (all_differ (labels FilePath.to_text paths)) repository_error
  ok paths
