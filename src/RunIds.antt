-- ===== src/RunIds.antt =====
-- src/goalrouter/run_ids.py: `validate_run_id`. The pattern is one letter or digit of ASCII and then
-- any number of letters, digits, dots, underscores and dashes.
use Prim.Native.Char.{Char, code}
use goal_router.Common.{
  String, Bool, true, false, ◌||◌, ◌&&◌, List, [], ◌∷◌, ◌==◌, ◌≡◌, refl, ap, ◌∙◌, inl, inr, eqb,
  leb, eq_iff, filter, arith, Bool-cases, ◌⊎◌,
}
use goal_router.Errors.{Result, ok, err, state_error, ◌>>◌, guard}
use goal_router.Domain.FilePath
use goal_router.Domain.FilePath.{FilePath, split, root_of, is_name, is_slash}
use goal_router.Domain.FilePath.RoundTrip.{NoSlash, split-part}

-- `[A-Za-z0-9]`
abbrev pub is_alphanumeric : Char → Bool
is_alphanumeric c =
    (leb 65 (code c) && leb (code c) 90)
    || (leb 97 (code c) && leb (code c) 122)
    || (leb 48 (code c) && leb (code c) 57)

-- `[A-Za-z0-9._-]`
abbrev pub is_id_char : Char → Bool
is_id_char c = is_alphanumeric c || eqb (code c) 46 || eqb (code c) 95 || eqb (code c) 45

unfoldable pub all_id_chars : String → Bool
all_id_chars String.[] = true
all_id_chars (String.◌∷◌ c s) = is_id_char c && all_id_chars s

-- `_RUN_ID.fullmatch(run_id) is not None`
unfoldable pub full_match : String → Bool
unfolding all_id_chars
full_match String.[] = false
full_match (String.◌∷◌ c s) = is_alphanumeric c && all_id_chars s

unfoldable pub validate_run_id : String → Result String
unfolding full_match
validate_run_id run_id = do guard (full_match run_id) state_error; ok run_id

no_slash : (s : String) → all_id_chars s ≡ true → NoSlash s
unfolding all_id_chars
no_slash String.[] h = tt
no_slash (String.◌∷◌ c s) h = (ground arith, no_slash s (ground arith))

not_text : (s t : String) → full_match s ≡ true → full_match t ≡ false → (s == t) ≡ false
not_text s t h k = elim (Bool-cases (s == t)) [
  | inl e ↦ let p = ap full_match ((eq_iff s t).0 e) in cc
  | inr e ↦ e
]

match-NoSlash : (s : String) → full_match s ≡ true → NoSlash s
unfolding full_match
match-NoSlash String.[] h = cc
match-NoSlash (String.◌∷◌ c s) h = (ground arith, no_slash s (ground arith))

match-root : (s : String) → full_match s ≡ true → root_of s ≡ ""
unfolding full_match root_of
match-root String.[] h = refl
match-root (String.◌∷◌ c s) h = elim (Bool-cases (is_slash c)) [
  | inl e ↦ ground arith
  | inr e ↦ rw e refl
]

match-name : (s : String) → full_match s ≡ true → is_name s ≡ true
unfolding full_match
match-name s h = ground (arith, not_text s "" h refl, not_text s "." h refl)

match-parts : (s : String) → full_match s ≡ true → filter is_name (split s) ≡ s ∷ []
match-parts s h = ap (filter is_name) (split-part s (match-NoSlash s h)) ∙ rw (match-name s h) refl

match-path :
    (s : String) → full_match s ≡ true → FilePath.of_text s ≡ record { root = ""; parts = s ∷ [] }
unfolding FilePath.of_text
match-path s h =
    ap (λ (r : String). record { root = r; parts = filter is_name (split s) }) (match-root s h)
    ∙ ap (λ (ps : List String). record { root = ""; parts = ps }) (match-parts s h)

-- The text is one name in a directory, and not the one that leads up.
pub record IsSingleName (text : String) : Type 0 where
  pub path : FilePath.of_text text ≡ record { root = ""; parts = text ∷ [] }
  pub not_parent : (text == "..") ≡ false

-- A run identifier is returned as it is, and then it is one name in a directory and not "..", or it
-- is refused with a StateError.
pub validate_run_id-IsSingleName :
    (run_id : String)
    → ((validate_run_id run_id ≡ ok run_id) × IsSingleName run_id)
      ⊎ (validate_run_id run_id ≡ err state_error)
unfolding validate_run_id
validate_run_id-IsSingleName run_id = elim (Bool-cases (full_match run_id)) [
  | inl e ↦
      inl
        (rw e refl, record { path = match-path run_id e; not_parent = not_text run_id ".." e refl })
  | inr e ↦ inr (rw e refl)
]
