-- ===== src/Store/Redaction.antt =====
-- json_store.py: what is left of a value after redaction.
use goal_router.Common.{String, true, false, ◌≡◌, refl, Bool-cases, inl, inr, if◌then◌else◌}
use goal_router.Domain.Platform.{Platform}
use goal_router.Domain.Json.{
  JsonValue, Items, Members, null, bool, int, float, str, array, object, nil, cons, end, member,
}
use goal_router.Store.{
  redacted, is_secret_key, is_secret_text, redact_json, redact_items, redact_members,
}

unfoldable mutual
  -- No text of the value has the shape of a secret, and a secret key has the marker.
  pub IsClean : {P : Platform} → JsonValue P → Type 0
  IsClean {P} (str s) = is_secret_text P s ≡ false
  IsClean (array xs) = AreClean xs
  IsClean (object d) = MembersClean d
  IsClean _ = Unit

  pub AreClean : {P : Platform} → Items P → Type 0
  AreClean nil = Unit
  AreClean (cons x xs) = IsClean x × AreClean xs

  pub MembersClean : {P : Platform} → Members P → Type 0
  MembersClean end = Unit
  MembersClean {P} (member key x d) =
      (IsClean x × (is_secret_key P key ≡ true → x ≡ str redacted)) × MembersClean d

module _ (P : Platform) (safe : is_secret_text P redacted ≡ false) where
  text-IsClean :
      (s : String) → is_secret_text P (if is_secret_text P s then redacted else s) ≡ false
  text-IsClean s = elim (Bool-cases (is_secret_text P s)) [
    | inl secret ↦ rw secret safe
    | inr open_ ↦ rw open_ open_
  ]

  value-IsClean :
      (key : String) (x : JsonValue P)
      → IsClean x
      → IsClean (if is_secret_key P key then str redacted else x)
        × (is_secret_key P key ≡ true
            → (if is_secret_key P key then str redacted else x) ≡ str redacted)
  unfolding IsClean
  value-IsClean key x h = elim (Bool-cases (is_secret_key P key)) [
    | inl secret ↦ rw secret (safe, λ _. refl)
    | inr open_ ↦ rw open_ (h, λ k. cc)
  ]

mutual
  unfolding IsClean redact_json

  redacted_json :
      {P : Platform}
      → is_secret_text P redacted ≡ false
      → (v : JsonValue P) → IsClean (redact_json v)
  redacted_json safe null = tt
  redacted_json safe (bool b) = tt
  redacted_json safe (int n) = tt
  redacted_json safe (float x) = tt
  redacted_json {P} safe (str s) = text-IsClean P safe s
  redacted_json safe (array xs) = redacted_items safe xs
  redacted_json safe (object d) = redacted_members safe d

  redacted_items :
      {P : Platform}
      → is_secret_text P redacted ≡ false
      → (xs : Items P) → AreClean (redact_items xs)
  redacted_items safe nil = tt
  redacted_items safe (cons x xs) = (redacted_json safe x, redacted_items safe xs)

  redacted_members :
      {P : Platform}
      → is_secret_text P redacted ≡ false
      → (d : Members P) → MembersClean (redact_members d)
  redacted_members safe end = tt
  redacted_members {P} safe (member key x d) =
      (value-IsClean P safe key (redact_json x) (redacted_json safe x), redacted_members safe d)

-- If the marker itself does not have the shape of a secret, then no text of a redacted value has it,
-- and the value of every secret key in it is the marker.
pub redact_json-IsClean :
    {P : Platform} (v : JsonValue P) → is_secret_text P redacted ≡ false → IsClean (redact_json v)
redact_json-IsClean v safe = redacted_json safe v
