-- ===== src/Repository/Texts.antt =====
-- repository.py: `_parse_branch`, `_split_nul_records`, `_parse_repository_path`,
-- `_validate_object_id` and `_require_consistent_object_format`, with the methods of `str` that
-- they use.
use Prim.Native.Char.{Char, code}
use goal_router.Common.{
  ℕ, ◌+◌, String, Bool, true, false, not, ◌||◌, ◌&&◌, Option, none, some, List, [], ◌∷◌, ◌==◌,
  if◌then◌else◌, any, eqb, leb, ltb,
}
use goal_router.Errors.{Result, ok, err, repository_error, ◌>>◌, guard}
use goal_router.Domain.FilePath
use goal_router.Domain.FilePath.{FilePath}

-- the separators: NUL, tab, newline, carriage return and space
abbrev pub nul : ℕ
nul = 0

abbrev pub tab : ℕ
tab = 9

abbrev pub newline : ℕ
newline = 10

abbrev pub carriage_return : ℕ
carriage_return = 13

abbrev pub space : ℕ
space = 32

abbrev pub is_char : ℕ → Char → Bool
is_char k c = eqb (code c) k

unfoldable pub glue : Char → List String → List String
glue c [] = (String.◌∷◌ c "") ∷ []
glue c (x ∷ xs) = (String.◌∷◌ c x) ∷ xs

-- `text.split(separator)`
unfoldable pub split : ℕ → String → List String
unfolding glue
split k String.[] = "" ∷ []
split k (String.◌∷◌ c s) = let rest = split k s in if is_char k c then "" ∷ rest else glue c rest

-- `text.split(separator, 1)` into two names; `none` for the ValueError
unfoldable pub split_once : ℕ → String → Option (String × String)
split_once k String.[] = none
split_once k (String.◌∷◌ c s) =
    let rest = split_once k s in
    if is_char k c
    then some ("", s)
    else elim rest [ none ↦ none | some (before, after) ↦ some (String.◌∷◌ c before, after) ]

-- `text.count(character)`
unfoldable pub count : ℕ → String → ℕ
count k String.[] = 0
count k (String.◌∷◌ c s) = let rest = count k s in if is_char k c then 1 + rest else rest

-- `character in text`
unfoldable pub has_char : ℕ → String → Bool
has_char k String.[] = false
has_char k (String.◌∷◌ c s) = is_char k c || has_char k s

-- `text.endswith(character)`
unfoldable pub ends_with : ℕ → String → Bool
ends_with k String.[] = false
ends_with k (String.◌∷◌ c String.[]) = is_char k c
ends_with k (String.◌∷◌ c (String.◌∷◌ d s)) = ends_with k (String.◌∷◌ d s)

-- `text.removesuffix(character)`
unfoldable pub remove_suffix : ℕ → String → String
remove_suffix k String.[] = ""
remove_suffix k (String.◌∷◌ c String.[]) = if is_char k c then "" else String.◌∷◌ c ""
remove_suffix k (String.◌∷◌ c (String.◌∷◌ d s)) = String.◌∷◌ c (remove_suffix k (String.◌∷◌ d s))

-- `len(text)`
unfoldable pub text_length : String → ℕ
text_length String.[] = 0
text_length (String.◌∷◌ c s) = 1 + text_length s

-- `values[:-1]`
unfoldable pub drop_last : List String → List String
drop_last [] = []
drop_last (x ∷ []) = []
drop_last (x ∷ y ∷ rest) = x ∷ drop_last (y ∷ rest)

-- `_split_nul_records` of a text that is not empty
unfoldable pub nonempty_records : String → Result (List String)
nonempty_records stdout = do
  guard (ends_with nul stdout) repository_error
  guard (not (any (λ record'. record' == "") (drop_last (split nul stdout)))) repository_error
  ok (drop_last (split nul stdout))

-- `_split_nul_records`
unfoldable pub split_nul_records : String → Result (List String)
unfolding nonempty_records
split_nul_records stdout = if stdout == "" then ok [] else nonempty_records stdout

-- `branch or None`
or_none : String → Option String
or_none branch = if branch == "" then none else some branch

-- `_parse_branch`
unfoldable pub parse_branch : String → Result (Option String)
unfolding or_none
parse_branch stdout = do
  guard (not (has_char nul stdout || ltb 1 (count newline stdout))) repository_error
  guard (not (has_char carriage_return (remove_suffix newline stdout))) repository_error
  ok (or_none (remove_suffix newline stdout))

-- `part in {"", ".", ".."}`
abbrev pub is_unsafe_part : String → Bool
is_unsafe_part part = part == "" || part == "." || part == ".."

-- `path.parts` has the root first, if there is one
unfoldable pub parts : FilePath → List String
parts path = if path.root == "" then path.parts else path.root ∷ path.parts

-- the condition of `_parse_repository_path`
unfoldable pub is_unsafe : String → FilePath → Bool
unfolding parts
is_unsafe raw_path path = raw_path == "" || not (path.root == "") || any is_unsafe_part (parts path)

-- `_parse_repository_path`
unfoldable pub parse_repository_path : String → Result FilePath
unfolding is_unsafe
parse_repository_path raw_path = do
  guard (not (is_unsafe raw_path (FilePath.of_text raw_path))) repository_error
  ok (FilePath.of_text raw_path)

-- `character in "0123456789abcdef"`
abbrev pub is_hex_digit : Char → Bool
is_hex_digit c = (leb 48 (code c) && leb (code c) 57) || (leb 97 (code c) && leb (code c) 102)

unfoldable pub is_hex : String → Bool
is_hex String.[] = true
is_hex (String.◌∷◌ c s) = is_hex_digit c && is_hex s

-- `lengths.add(length)`, for a set of numbers
unfoldable pub add_length : ℕ → List ℕ → List ℕ
add_length n lengths = if any (eqb n) lengths then lengths else n ∷ lengths

-- `_validate_object_id`, which gives back the set that it extends
unfoldable pub validate_object_id : String → List ℕ → Result (List ℕ)
unfolding text_length is_hex add_length
validate_object_id object_id lengths = do
  guard ((eqb (text_length object_id) 40 || eqb (text_length object_id) 64) && is_hex object_id)
      repository_error
  ok (add_length (text_length object_id) lengths)

-- `_require_consistent_object_format`
unfoldable pub require_consistent_object_format : List ℕ → Result (Unit {0})
require_consistent_object_format [] = ok tt
require_consistent_object_format (n ∷ []) = ok tt
require_consistent_object_format (n ∷ m ∷ rest) = err repository_error
