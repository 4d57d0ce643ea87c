-- ===== src/Reporting.antt =====
-- src/goalrouter/reporting.py: `ReportRenderer`. `{:g}` and `sum` of floats, `rstrip` and `json.dumps`
-- are parameters.
pub mod Printable
pub mod Render
pub mod Total
use Prim.Native.Char.{Char, code}
use Prim.Native.String.{◌++◌}
use Prim.Native.Nat.{◌/◌, ◌%◌}
use goal_router.Common.{
  ℕ, zero, suc, ◌+◌, ◌-◌, String, Bool, true, false, ◌&&◌, ◌||◌, Option, none, some, List, [], ◌∷◌,
  ◌++◌ as append, ◌==◌, if◌then◌else◌, leb, ltb, eqb, map,
}
use goal_router.Common.Strings.{sort, join}
use goal_router.Common.Dict
use goal_router.Common.Dict.{Dict, keys, values}
use goal_router.Common.Integers.{ℤ, pos, negsuc, ◌+ℤ◌}
use goal_router.Errors.{Result, ok, err, key_error, ◌>>=◌}
use goal_router.Domain.Platform.{Platform}
use goal_router.Domain.Json.{JsonValue, list}
use goal_router.Domain.Enums.{value}
use goal_router.Domain.FilePath.{FilePath, to_text}
use goal_router.Domain.InstructionFile.{InstructionFile}
use goal_router.Domain.RepositoryContext.{RepositoryContext}
use goal_router.Domain.WorkItem.{WorkItem}
use goal_router.Domain.WorkResult.{WorkResult}
use goal_router.Domain.RouteDecision.{RouteDecision}
use goal_router.Domain.RunState.{RunState}
use goal_router.Store.{redact_json}

-- the digits to the base 16
abbrev pub hex_digits : List String
hex_digits =
    "0" ∷ "1" ∷ "2" ∷ "3" ∷ "4" ∷ "5" ∷ "6" ∷ "7" ∷ "8" ∷ "9" ∷ "a" ∷ "b" ∷ "c" ∷ "d" ∷ "e" ∷ "f"
    ∷ []

unfoldable pub digit_at : ℕ → List String → String
digit_at n [] = ""
digit_at zero (d ∷ ds) = d
digit_at (suc n) (d ∷ ds) = digit_at n ds

-- `{n:02x}`, for a number below 256
unfoldable pub two_digits : ℕ → String
two_digits n = digit_at (n / 16) hex_digits ++ digit_at (n % 16) hex_digits

-- `{n:04x}`, for a number below 65536
unfoldable pub four_digits : ℕ → String
four_digits n = two_digits (n / 256) ++ two_digits (n % 256)

-- the body of the loop of `_display_text`, from its last tests on
unfoldable pub escape_code : Char → String
escape_code c =
    if leb 56448 (code c) && leb (code c) 56575
    then "\\x" ++ two_digits (code c - 56320)
    else if ltb (code c) 32 || eqb (code c) 127
    then "\\x" ++ two_digits (code c)
    else if leb 55296 (code c) && leb (code c) 57343
    then "\\u" ++ four_digits (code c)
    else String.◌∷◌ c ""

unfoldable pub escape : Char → String
escape c =
    if eqb (code c) 92
    then "\\\\"
    else if eqb (code c) 10
    then "\\n"
    else if eqb (code c) 13
    then "\\r"
    else if eqb (code c) 9
    then "\\t"
    else escape_code c

-- `_display_text`
unfoldable pub display_text : String → String
display_text String.[] = ""
display_text (String.◌∷◌ c s) = escape c ++ display_text s

unfoldable pub display_path : FilePath → String
display_path path = display_text (to_text path)

-- `text or "(none)"`
unfoldable pub text_or_none : String → String
text_or_none text = if text == "" then "(none)" else text

unfoldable pub or_none : Option String → String
or_none none = "(none)"
or_none (some text) = text_or_none text

unfoldable pub paths : List FilePath → String
paths ps = text_or_none (join ", " (map display_path ps))

unfoldable pub dirty_summary : RepositoryContext → String
dirty_summary repository = elim repository.dirty_paths [
  | [] ↦ "clean"
  | p ∷ ps ↦ join ", " (map display_path (p ∷ ps))
]

-- `state.repository.branch`, if it is there and not empty
unfoldable pub branch_text : Option String → String
branch_text none = "(none)"
branch_text (some branch) = if branch == "" then "(none)" else display_text branch
