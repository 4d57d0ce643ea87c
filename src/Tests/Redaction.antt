-- ===== src/Tests/Redaction.antt =====
-- The redaction of an event with a token.
use goal_router.Common.{false, ◌≡◌, refl, [], ◌∷◌}
use goal_router.Domain.Json.{JsonValue, str, dict}
use goal_router.Store.{redacted, is_secret_text, text_length, redact_json}
use goal_router.Store.Redaction.{IsClean, redact_json-IsClean}
use goal_router.Samples.{platform}

abbrev event : JsonValue platform
event = dict (("token", str "sk-12345678") ∷ ("password", str "x") ∷ ("note", str "done") ∷ [])

marker_is_safe : is_secret_text platform redacted ≡ false
unfolding is_secret_text text_length
marker_is_safe = refl

redact_json-IsClean_example : IsClean (redact_json event)
redact_json-IsClean_example = redact_json-IsClean event marker_is_safe
