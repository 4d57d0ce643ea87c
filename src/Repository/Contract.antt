-- ===== src/Repository/Contract.antt =====
-- repository.py: what the parsers of Git's evidence let through.
use mathlib.Core.Path.{subst}
use goal_router.Common.{
  ℕ, String, Bool, true, false, not, ◌||◌, ◌&&◌, Option, List, [], ◌∷◌, ◌==◌, ◌≡◌, refl, sym, ◌∙◌,
  ◌⊎◌, inl, inr, All, In, All-In, any, eqb, eqb→eq, arith, Bool-cases, eq_iff,
}
use goal_router.Common.Strings.{contains}
use goal_router.Common.Integers.{ℤ}
use goal_router.Errors.{ok, repository_error, guard, guard-eq-ok, >>=-eq-ok, ok-injective}
use goal_router.Domain.FilePath
use goal_router.Domain.FilePath.{FilePath}
use goal_router.Repository.{GitIndexEntry, allowed_index_modes}
use goal_router.Repository.Texts.{
  split_once, split_nul_records, parts, is_unsafe_part, is_unsafe, parse_repository_path,
  text_length, is_hex, add_length, validate_object_id, require_consistent_object_format, tab, space,
  split,
}
use goal_router.Repository.Evidence.{
  is_stage, is_tag, or_malformed, four_fields, parse_index_entry, index_entries_of,
  parse_index_entries,
}

-- A path below the root of the repository: relative, and no part of it leads up.
pub record IsContained (path : FilePath) : Type 0 where
  pub relative : path.root ≡ ""
  pub safe : All (λ (part : String). is_unsafe_part part ≡ false) path.parts

-- An object identifier of Git: 40 or 64 hexadecimal digits.
pub record IsObjectId (object_id : String) : Type 0 where
  pub digits : is_hex object_id ≡ true
  pub size : (text_length object_id ≡ 40) ⊎ (text_length object_id ≡ 64)

any-All :
    {A : Type 0} (test : A → Bool) (xs : List A)
    → any test xs ≡ false
    → All (λ x. test x ≡ false) xs
any-All test [] h = tt
any-All test (x ∷ xs) h = (ground arith, any-All test xs (ground arith))

is_safe : (raw : String) (path : FilePath) → not (is_unsafe raw path) ≡ true → IsContained path
unfolding is_unsafe parts
is_safe raw path h = elim (Bool-cases (path.root == "")) [
  | inl e ↦
      let h' = rw e at h in
      record {
        relative = (eq_iff path.root "").0 e;
        safe = any-All is_unsafe_part path.parts (ground arith);
      }
  | inr e ↦ let h' = rw e at h in ground arith
]

pub parse_repository_path-IsContained :
    (raw : String) (path : FilePath) → parse_repository_path raw ≡ ok path → IsContained path
unfolding parse_repository_path
parse_repository_path-IsContained raw path h =
    let p = FilePath.of_text raw in
    let (_, guarded, found) = >>=-eq-ok (guard (not (is_unsafe raw p)) repository_error) _ h in
    subst IsContained (ok-injective found) (is_safe raw p (guard-eq-ok _ _ guarded))

abbrev is_object_id : String → Bool
is_object_id object_id =
    (eqb (text_length object_id) 40 || eqb (text_length object_id) 64) && is_hex object_id

is_object_id-IsObjectId :
    (object_id : String) → is_object_id object_id ≡ true → IsObjectId object_id
is_object_id-IsObjectId object_id h = record {
  digits = ground arith;
  size = elim (Bool-cases (eqb (text_length object_id) 40)) [
    | inl e ↦ inl (eqb→eq (text_length object_id) 40 e)
    | inr e ↦ inr (eqb→eq (text_length object_id) 64 (ground arith))
  ];
}

pub validate_object_id-IsObjectId :
    (object_id : String) (lengths lengths' : List ℕ)
    → validate_object_id object_id lengths ≡ ok lengths'
    → IsObjectId object_id × (lengths' ≡ add_length (text_length object_id) lengths)
unfolding validate_object_id
validate_object_id-IsObjectId object_id lengths lengths' h =
    let (_, guarded, found) = >>=-eq-ok (guard (is_object_id object_id) repository_error) _ h in
    (is_object_id-IsObjectId object_id (guard-eq-ok _ _ guarded), sym (ok-injective found))

-- All these lengths are n.
abbrev pub AllAre : ℕ → List ℕ → Type 0
AllAre n = All (λ m. m ≡ n)

any_found :
    {A : Type 0} (test : A → Bool) (xs : List A)
    → any test xs ≡ true
    → (x : A) × In x xs × (test x ≡ true)
any_found test [] h = cc
any_found test (x ∷ xs) h = elim (Bool-cases (test x)) [
  | inl e ↦ (x, inl refl, e)
  | inr e ↦ let (y, y_in, t) = any_found test xs (ground arith) in (y, inr y_in, t)
]

pub add_length-AllAre :
    (n m : ℕ) (lengths : List ℕ) → AllAre n (add_length m lengths) → (m ≡ n) × AllAre n lengths
unfolding add_length
add_length-AllAre n m lengths h = elim (Bool-cases (any (eqb m) lengths)) [
  | inl e ↦
      let h' = rw e at h in
      let (k, k_in, same) = any_found (eqb m) lengths e in
      (eqb→eq m k same ∙ All-In (λ j. j ≡ n) k lengths h' k_in, h')
  | inr e ↦ rw e at h
]

pub consistent-AllAre :
    (lengths : List ℕ)
    → require_consistent_object_format lengths ≡ ok tt
    → (n : ℕ) × AllAre n lengths
unfolding require_consistent_object_format
consistent-AllAre [] h = (0, tt)
consistent-AllAre (n ∷ []) h = (n, (refl, tt))
consistent-AllAre (n ∷ m ∷ rest) h = cc

-- What an entry of the index promises.
pub record IsIndexEntry (entry : GitIndexEntry) : Type 0 where
  pub tag : is_tag entry.tag ≡ true
  pub mode : contains allowed_index_modes entry.mode ≡ true
  pub stage : is_stage entry.tag entry.stage ≡ true
  pub object_id : IsObjectId entry.object_id
  pub path : IsContained entry.path

module _ (int : String → Option ℤ) where
  parse_index_entry-IsIndexEntry :
      (lengths : List ℕ) (record' : String) (entry : GitIndexEntry) (lengths' : List ℕ)
      → parse_index_entry int lengths record' ≡ ok (entry, lengths')
      → IsIndexEntry entry × (lengths' ≡ add_length (text_length entry.object_id) lengths)
  unfolding parse_index_entry
  parse_index_entry-IsIndexEntry lengths record' entry lengths' h =
      let ((metadata, raw_path), _, h1) = >>=-eq-ok (or_malformed (split_once tab record')) _ h in
      let ((tag', mode', id', raw_stage), _, h2) =
        >>=-eq-ok (or_malformed (four_fields (split space metadata))) _ h1 in
      let (stage', _, h3) = >>=-eq-ok (or_malformed (int raw_stage)) _ h2 in
      let (_, tagged, h4) = >>=-eq-ok (guard (is_tag tag') repository_error) _ h3 in
      let (_, moded, h5) =
        >>=-eq-ok (guard (contains allowed_index_modes mode') repository_error) _ h4 in
      let (_, staged, h6) = >>=-eq-ok (guard (is_stage tag' stage') repository_error) _ h5 in
      let (ls, identified, h7) = >>=-eq-ok (validate_object_id id' lengths) _ h6 in
      let (path', contained, h8) = >>=-eq-ok (parse_repository_path raw_path) _ h7 in
      let (is_id, added) = validate_object_id-IsObjectId id' lengths ls identified in
      let pair = ok-injective h8 in
      subst
        (λ (q : GitIndexEntry × List ℕ).
          IsIndexEntry q.0 × (q.1 ≡ add_length (text_length q.0.object_id) lengths))
        pair
        (
          record {
            tag = guard-eq-ok _ _ tagged;
            mode = guard-eq-ok _ _ moded;
            stage = guard-eq-ok _ _ staged;
            object_id = is_id;
            path = parse_repository_path-IsContained raw_path path' contained;
          },
          added,
        )

  -- The entries that the loop returns, whose identifiers have the length of those before.
  entries_sound :
      (lengths : List ℕ) (records : List String) (entries : List GitIndexEntry)
      → index_entries_of int lengths records ≡ ok entries
      → All IsIndexEntry entries
        × (n : ℕ) × AllAre n lengths
        × All (λ (e : GitIndexEntry). text_length e.object_id ≡ n) entries
  unfolding index_entries_of
  entries_sound lengths [] entries h =
      let (_, one, h1) = >>=-eq-ok (require_consistent_object_format lengths) _ h in
      let (n, same) = consistent-AllAre lengths one in
      subst
        (λ (es : List GitIndexEntry).
          All IsIndexEntry es
          × (n : ℕ) × AllAre n lengths
          × All (λ (e : GitIndexEntry). text_length e.object_id ≡ n) es)
        (ok-injective h1) (tt, n, same, tt)
  entries_sound lengths (record' ∷ records) entries h =
      let ((entry, lengths'), first, h1) = >>=-eq-ok (parse_index_entry int lengths record') _ h in
      let (rest, more, h2) = >>=-eq-ok (index_entries_of int lengths' records) _ h1 in
      let (good, added) = parse_index_entry-IsIndexEntry lengths record' entry lengths' first in
      let (goods, n, same, sizes) = entries_sound lengths' records rest more in
      let (m, same') =
        add_length-AllAre n (text_length entry.object_id) lengths (subst (AllAre n) added same) in
      subst
        (λ (es : List GitIndexEntry).
          All IsIndexEntry es
          × (n : ℕ) × AllAre n lengths
          × All (λ (e : GitIndexEntry). text_length e.object_id ≡ n) es)
        (ok-injective h2) ((good, goods), n, same', (m, sizes))

  -- Every entry that is read from the index has a known tag, an allowed mode, a stage that fits its
  -- tag, an object identifier of 40 or 64 hexadecimal digits and a relative path with no part that
  -- leads up; and the object identifiers have one length.
  pub parse_index_entries-IsIndexEntry :
      (stdout : String) (entries : List GitIndexEntry)
      → parse_index_entries int stdout ≡ ok entries
      → All IsIndexEntry entries
        × (n : ℕ) × All (λ (e : GitIndexEntry). text_length e.object_id ≡ n) entries
  unfolding parse_index_entries
  parse_index_entries-IsIndexEntry stdout entries h =
      let (records, _, h1) = >>=-eq-ok (split_nul_records stdout) _ h in
      let (good, n, _, sizes) = entries_sound [] records entries h1 in (good, n, sizes)
