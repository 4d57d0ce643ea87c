-- ===== src/Repository/Trees.antt =====
-- repository.py: what `_parse_tree_entries` and `_parse_nul_paths` let through.
use mathlib.Core.Path.{subst}
use goal_router.Common.{
  eq_iff, ℕ, String, true, false, not, ◌&&◌, List, [], ◌∷◌, ◌==◌, ◌≡◌, refl, All, arith,
}
use goal_router.Common.Strings.{contains}
use goal_router.Common.Distinct.{IsDistinct, labels}
use goal_router.Errors.{ok, repository_error, guard, guard-eq-ok, >>=-eq-ok, ok-injective}
use goal_router.Domain.FilePath
use goal_router.Domain.FilePath.{FilePath}
use goal_router.Domain.Fields.{each}
use goal_router.Repository.{GitTreeEntry, allowed_index_modes}
use goal_router.Repository.Texts.{
  tab, space, split, split_once, split_nul_records, parse_repository_path, text_length, add_length,
  validate_object_id, require_consistent_object_format,
}
use goal_router.Repository.Evidence.{
  or_malformed, three_fields, expected_type, parse_tree_entry, tree_entries_of, parse_tree_entries,
  all_differ, parse_nul_paths,
}
use goal_router.Repository.Contract.{
  IsContained, IsObjectId, AllAre, parse_repository_path-IsContained, validate_object_id-IsObjectId,
  add_length-AllAre, consistent-AllAre,
}

-- What an entry of the HEAD tree promises.
pub record IsTreeEntry (entry : GitTreeEntry) : Type 0 where
  pub mode : contains allowed_index_modes entry.mode ≡ true
  pub object_id : IsObjectId entry.object_id
  pub path : IsContained entry.path

abbrev pub path_text : GitTreeEntry → String
path_text entry = FilePath.to_text entry.path

-- the paths of the entries, as texts
abbrev pub paths_of : List GitTreeEntry → List String
paths_of entries = labels path_text entries

parse_tree_entry-IsTreeEntry :
    (lengths : List ℕ) (record' : String) (entry : GitTreeEntry) (lengths' : List ℕ)
    → parse_tree_entry lengths record' ≡ ok (entry, lengths')
    → IsTreeEntry entry × (lengths' ≡ add_length (text_length entry.object_id) lengths)
unfolding parse_tree_entry
parse_tree_entry-IsTreeEntry lengths record' entry lengths' h =
    let ((metadata, raw_path), _, h1) = >>=-eq-ok (or_malformed (split_once tab record')) _ h in
    let ((mode', type', id'), _, h2) =
      >>=-eq-ok (or_malformed (three_fields (split space metadata))) _ h1 in
    let (_, supported, h3) =
      >>=-eq-ok
        (guard (contains allowed_index_modes mode' && type' == expected_type mode')
          repository_error)
        _ h2 in
    let (ls, identified, h4) = >>=-eq-ok (validate_object_id id' lengths) _ h3 in
    let (path', contained, h5) = >>=-eq-ok (parse_repository_path raw_path) _ h4 in
    let (is_id, added) = validate_object_id-IsObjectId id' lengths ls identified in
    let test =
      guard-eq-ok (contains allowed_index_modes mode' && type' == expected_type mode')
        repository_error supported in
    subst
      (λ (q : GitTreeEntry × List ℕ).
        IsTreeEntry q.0 × (q.1 ≡ add_length (text_length q.0.object_id) lengths))
      (ok-injective h5)
      (
        record {
          mode = ground arith;
          object_id = is_id;
          path = parse_repository_path-IsContained raw_path path' contained;
        },
        added,
      )

-- The entries of the rest of the loop, after these lengths and these paths.
abbrev IsTreeAfter : List ℕ → List String → List GitTreeEntry → Type 0
IsTreeAfter lengths seen entries =
    All IsTreeEntry entries
    × IsDistinct (paths_of entries)
    × All (λ text. contains seen text ≡ false) (paths_of entries)
    × (n : ℕ) × AllAre n lengths
    × All (λ (e : GitTreeEntry). text_length e.object_id ≡ n) entries

unseen_rest :
    (text : String) (seen texts : List String)
    → All (λ t. contains (text ∷ seen) t ≡ false) texts
    → All (λ t. contains seen t ≡ false) texts × (contains texts text ≡ false)
unfolding contains
unseen_rest text seen [] h = (tt, refl)
unseen_rest text seen (t ∷ texts) (p, h) =
    let (rest, apart) = unseen_rest text seen texts h in
    ((ground arith, rest), ground (arith, apart, eq_iff t text, eq_iff text t))

tree_entries_of-IsTreeAfter :
    (lengths : List ℕ) (seen records : List String) (entries : List GitTreeEntry)
    → tree_entries_of lengths seen records ≡ ok entries
    → IsTreeAfter lengths seen entries
unfolding tree_entries_of
tree_entries_of-IsTreeAfter lengths seen [] entries h =
    let (_, one, h1) = >>=-eq-ok (require_consistent_object_format lengths) _ h in
    let (n, same) = consistent-AllAre lengths one in
    subst (IsTreeAfter lengths seen) (ok-injective h1) (tt, tt, tt, n, same, tt)
tree_entries_of-IsTreeAfter lengths seen (record' ∷ records) entries h =
    let ((entry, lengths'), first, h1) = >>=-eq-ok (parse_tree_entry lengths record') _ h in
    let (_, new, h2) =
      >>=-eq-ok (guard (not (contains seen (path_text entry))) repository_error) _ h1 in
    let (rest, more, h3) =
      >>=-eq-ok (tree_entries_of lengths' (path_text entry ∷ seen) records) _ h2 in
    let (good, added) = parse_tree_entry-IsTreeEntry lengths record' entry lengths' first in
    let (goods, distinct, unseen, n, same, sizes) =
      tree_entries_of-IsTreeAfter lengths' (path_text entry ∷ seen) records rest more in
    let (m, same') =
      add_length-AllAre n (text_length entry.object_id) lengths (subst (AllAre n) added same) in
    let (unseen', apart) = unseen_rest (path_text entry) seen (paths_of rest) unseen in
    let test = guard-eq-ok (not (contains seen (path_text entry))) repository_error new in
    subst (IsTreeAfter lengths seen) (ok-injective h3)
      ((good, goods), (apart, distinct), (ground arith, unseen'), n, same', (m, sizes))

-- Every entry that is read from the HEAD tree has an allowed mode, an object identifier of 40 or 64
-- hexadecimal digits and a relative path with no part that leads up; no two have one path, and the
-- object identifiers have one length.
pub parse_tree_entries-IsTreeEntry :
    (stdout : String) (entries : List GitTreeEntry)
    → parse_tree_entries stdout ≡ ok entries
    → All IsTreeEntry entries
      × IsDistinct (paths_of entries)
      × (n : ℕ) × All (λ (e : GitTreeEntry). text_length e.object_id ≡ n) entries
unfolding parse_tree_entries
parse_tree_entries-IsTreeEntry stdout entries h =
    let (records, _, h1) = >>=-eq-ok (split_nul_records stdout) _ h in
    let (good, distinct, _, n, _, sizes) = tree_entries_of-IsTreeAfter [] [] records entries h1 in
    (good, distinct, n, sizes)

each_path-IsContained :
    (records : List String) (paths : List FilePath)
    → each parse_repository_path records ≡ ok paths
    → All IsContained paths
unfolding each
each_path-IsContained [] paths h = subst (All IsContained) (ok-injective h) tt
each_path-IsContained (raw ∷ records) paths h =
    let (path, first, h1) = >>=-eq-ok (parse_repository_path raw) _ h in
    let (rest, more, h2) = >>=-eq-ok (each parse_repository_path records) _ h1 in
    subst (All IsContained) (ok-injective h2)
      (parse_repository_path-IsContained raw path first, each_path-IsContained records rest more)

all_differ-IsDistinct : (xs : List String) → all_differ xs ≡ true → IsDistinct xs
unfolding all_differ
all_differ-IsDistinct [] h = tt
all_differ-IsDistinct (x ∷ xs) h = (ground arith, all_differ-IsDistinct xs (ground arith))

-- The untracked paths are relative, none has a part that leads up, and they are all different.
pub parse_nul_paths-IsContained :
    (stdout : String) (paths : List FilePath)
    → parse_nul_paths stdout ≡ ok paths
    → All IsContained paths × IsDistinct (labels FilePath.to_text paths)
unfolding parse_nul_paths
parse_nul_paths-IsContained stdout paths h =
    let (records, _, h1) = >>=-eq-ok (split_nul_records stdout) _ h in
    let (found, read, h2) = >>=-eq-ok (each parse_repository_path records) _ h1 in
    let (_, differ, h3) =
      >>=-eq-ok (guard (all_differ (labels FilePath.to_text found)) repository_error) _ h2 in
    subst (λ (ps : List FilePath). All IsContained ps × IsDistinct (labels FilePath.to_text ps))
      (ok-injective h3)
      (each_path-IsContained records found read, all_differ-IsDistinct _ (guard-eq-ok _ _ differ))
