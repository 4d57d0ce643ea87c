-- ===== src/Domain/FilePath.antt =====
-- pathlib's PurePosixPath as src/goalrouter uses it: `Path(text)` and `str(path)`.
pub mod RoundTrip
use Prim.Native.Char.{Char, code}
use Prim.Native.Nat.{compare, Ordering}
use Prim.Native.String.{◌++◌}
use goal_router.Common.{
  ℕ, String, List, [], ◌∷◌, Bool, true, false, not, ◌||◌, ◌==◌, if◌then◌else◌, filter,
}
use goal_router.Common.Strings.{join}

-- `root` is "", "/" or "//"; `parts` are the names below it.
pub record FilePath : Type 0 where
  pub root : String
  pub parts : List String

abbrev pub is_slash : Char → Bool
is_slash c = elim (compare (code c) 47) [ Ordering.eq ↦ true | _ ↦ false ]

glue : Char → List String → List String
glue c [] = (String.◌∷◌ c "") ∷ []
glue c (x ∷ xs) = (String.◌∷◌ c x) ∷ xs

-- `text.split("/")`
unfoldable pub split : String → List String
unfolding glue
split String.[] = "" ∷ []
split (String.◌∷◌ c s) = if is_slash c then "" ∷ split s else glue c (split s)

third : String → String
third String.[] = "//"
third (String.◌∷◌ c s) = if is_slash c then "/" else "//"

second : String → String
unfolding third
second String.[] = "/"
second (String.◌∷◌ c s) = if is_slash c then third s else "/"

-- Exactly two leading slashes are kept; any other number of them is one.
unfoldable pub root_of : String → String
unfolding second
root_of String.[] = ""
root_of (String.◌∷◌ c s) = if is_slash c then second s else ""

abbrev pub is_name : String → Bool
is_name part = not (part == "" || part == ".")

-- `Path(text)`
unfoldable pub of_text : String → FilePath
unfolding split root_of
of_text text = record { root = root_of text; parts = filter is_name (split text) }

-- `str(path)`
unfoldable pub to_text : FilePath → String
unfolding join
to_text path = let text = path.root ++ join "/" path.parts in if text == "" then "." else text
