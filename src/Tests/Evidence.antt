-- ===== src/Tests/Evidence.antt =====
-- Texts that Git writes with `-z`.
use goal_router.Common.{
  String, true, Option, some, none, List, [], ◌∷◌, ◌≡◌, refl, ◌==◌, if◌then◌else◌, ◌↔◌, All, ℕ,
}
use goal_router.Common.Integers.{ℤ, pos}
use goal_router.Errors.{ok}
use goal_router.Domain.FilePath.{FilePath}
use goal_router.Common.Distinct.{IsDistinct, labels}
use goal_router.Domain.FilePath
use goal_router.Repository.{GitIndexEntry, GitTreeEntry}
use goal_router.Repository.Trees.{
  IsTreeEntry, paths_of, parse_tree_entries-IsTreeEntry, parse_nul_paths-IsContained,
}
use goal_router.Repository.Texts.{split_nul_records, text_length}
use goal_router.Repository.Evidence.{parse_index_entries, parse_tree_entries, parse_nul_paths}
use goal_router.Repository.Records.{terminated, IsRecord, split_nul_records_iff}
use goal_router.Repository.Contract.{IsContained, IsIndexEntry, parse_index_entries-IsIndexEntry}

split_nul_records_iff_example :
    (split_nul_records "a\0b\0" ≡ ok ("a" ∷ "b" ∷ []))
    ↔ (("a\0b\0" ≡ terminated ("a" ∷ "b" ∷ [])) × All IsRecord ("a" ∷ "b" ∷ []))
split_nul_records_iff_example = split_nul_records_iff "a\0b\0" ("a" ∷ "b" ∷ [])

abbrev int : String → Option ℤ
int text = if text == "0" then some (pos 0) else none

abbrev digest : String
digest = "0123456789012345678901234567890123456789"

abbrev stdout : String
stdout = "H 100644 0123456789012345678901234567890123456789 0\tsrc/a.py\0"

abbrev entry : GitIndexEntry
entry = record {
  tag = "H";
  mode = "100644";
  object_id = digest;
  stage = pos 0;
  path = record { root = ""; parts = "src" ∷ "a.py" ∷ [] };
}

is_read : parse_index_entries int stdout ≡ ok (entry ∷ [])
unfolding parse_index_entries split_nul_records goal_router.Repository.Texts.ends_with
    goal_router.Repository.Texts.drop_last goal_router.Repository.Texts.split
    goal_router.Repository.Texts.split_once goal_router.Repository.Texts.validate_object_id
    goal_router.Repository.Texts.parse_repository_path
    goal_router.Repository.Texts.require_consistent_object_format
    goal_router.Repository.Evidence.index_entries_of
    goal_router.Repository.Evidence.parse_index_entry goal_router.Common.Strings.contains
    goal_router.Domain.FilePath.of_text
is_read = refl

parse_index_entries-IsIndexEntry_example :
    All IsIndexEntry (entry ∷ [])
    × (n : ℕ) × All (λ (e : GitIndexEntry). text_length e.object_id ≡ n) (entry ∷ [])
parse_index_entries-IsIndexEntry_example =
    parse_index_entries-IsIndexEntry int stdout (entry ∷ []) is_read

abbrev tree_stdout : String
tree_stdout = "100644 blob 0123456789012345678901234567890123456789\tsrc/a.py\0"

abbrev tree_entry : GitTreeEntry
tree_entry = record {
  mode = "100644";
  object_id = digest;
  path = record { root = ""; parts = "src" ∷ "a.py" ∷ [] };
}

tree_is_read : parse_tree_entries tree_stdout ≡ ok (tree_entry ∷ [])
unfolding parse_tree_entries split_nul_records goal_router.Repository.Evidence.tree_entries_of
    goal_router.Repository.Evidence.parse_tree_entry goal_router.Domain.FilePath.to_text
    goal_router.Repository.Texts.ends_with goal_router.Repository.Texts.drop_last
    goal_router.Repository.Texts.split goal_router.Repository.Texts.split_once
    goal_router.Repository.Texts.validate_object_id
    goal_router.Repository.Texts.parse_repository_path
    goal_router.Repository.Texts.require_consistent_object_format
    goal_router.Common.Strings.contains goal_router.Domain.FilePath.of_text
tree_is_read = refl

parse_tree_entries-IsTreeEntry_example :
    All IsTreeEntry (tree_entry ∷ [])
    × IsDistinct (paths_of (tree_entry ∷ []))
    × (n : ℕ) × All (λ (e : GitTreeEntry). text_length e.object_id ≡ n) (tree_entry ∷ [])
parse_tree_entries-IsTreeEntry_example =
    parse_tree_entries-IsTreeEntry tree_stdout (tree_entry ∷ []) tree_is_read

abbrev note : FilePath
note = record { root = ""; parts = "note.txt" ∷ [] }

paths_are_read : parse_nul_paths "note.txt\0" ≡ ok (note ∷ [])
unfolding parse_nul_paths split_nul_records goal_router.Domain.Fields.each
    goal_router.Domain.FilePath.to_text goal_router.Repository.Texts.ends_with
    goal_router.Repository.Texts.drop_last goal_router.Repository.Texts.split
    goal_router.Repository.Texts.split_once goal_router.Repository.Texts.validate_object_id
    goal_router.Repository.Texts.parse_repository_path
    goal_router.Repository.Texts.require_consistent_object_format
    goal_router.Common.Strings.contains goal_router.Domain.FilePath.of_text
paths_are_read = refl

parse_nul_paths-IsContained_example :
    All IsContained (note ∷ []) × IsDistinct (labels FilePath.to_text (note ∷ []))
parse_nul_paths-IsContained_example =
    parse_nul_paths-IsContained "note.txt\0" (note ∷ []) paths_are_read
