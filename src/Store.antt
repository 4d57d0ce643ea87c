-- ===== src/Store.antt =====
-- src/goalrouter/storage/json_store.py: `redact_json`, which every state and event passes on its way
-- to the disk.
pub mod Redaction
pub mod Disk
pub mod Files
pub mod Runs
pub mod Calls
pub mod Atomic
pub mod Snapshots
pub mod Loading
use Prim.Native.Char.{Char, code}
use Prim.Native.String
use text.Mathlib.Text.{starts_with}
use goal_router.Common.{
  ℕ, suc, String, Bool, true, false, ◌||◌, ◌&&◌, List, [], ◌∷◌, if◌then◌else◌, ltb, leb,
}
use goal_router.Common.Strings.{contains}
use goal_router.Domain.Platform.{Platform}
use goal_router.Domain.Json.{
  JsonValue, Items, Members, null, bool, int, float, str, array, object, nil, cons, end, member,
}

abbrev pub redacted : String
redacted = "[REDACTED]"

abbrev pub secret_keys : List String
secret_keys =
    "apikey" ∷ "authorization" ∷ "bearer" ∷ "clientsecret" ∷ "openaikey" ∷ "openaiapikey"
    ∷ "password" ∷ "refreshtoken" ∷ "accesstoken" ∷ "secret" ∷ []

-- `[a-z0-9]`
unfoldable pub is_plain : Char → Bool
is_plain c = (leb 97 (code c) && leb (code c) 122) || (leb 48 (code c) && leb (code c) 57)

-- `re.sub(r"[^a-z0-9]", "", text)`
unfoldable pub plain : String → String
plain String.[] = ""
plain (String.◌∷◌ c s) = let rest = plain s in if is_plain c then String.◌∷◌ c rest else rest

-- `len(s)`
unfoldable pub text_length : String → ℕ
text_length String.[] = 0
text_length (String.◌∷◌ c s) = suc (text_length s)

module _ (P : Platform) where
  unfoldable pub is_secret_key : String → Bool
  is_secret_key key = contains secret_keys (plain (P.casefold key))

  unfoldable pub is_secret_text : String → Bool
  is_secret_text s =
      (starts_with s "sk-" && ltb 6 (text_length s)) || starts_with (P.casefold s) "bearer "

unfoldable mutual
  pub redact_json : {P : Platform} → JsonValue P → JsonValue P
  redact_json null = null
  redact_json (bool b) = bool b
  redact_json (int n) = int n
  redact_json (float x) = float x
  redact_json {P} (str s) = str (if is_secret_text P s then redacted else s)
  redact_json (array xs) = array (redact_items xs)
  redact_json (object d) = object (redact_members d)

  pub redact_items : {P : Platform} → Items P → Items P
  redact_items nil = nil
  redact_items (cons x xs) = cons (redact_json x) (redact_items xs)

  pub redact_members : {P : Platform} → Members P → Members P
  redact_members end = end
  redact_members {P} (member key x d) =
      let inner = redact_json x in
      member key (if is_secret_key P key then str redacted else inner) (redact_members d)
