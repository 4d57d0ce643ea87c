-- ===== src/Domain/Platform.antt =====
-- What src/goalrouter takes from the runtime and the model does not build: `float`, `datetime`, and
-- the Unicode tables and patterns behind some operations on text. They are a parameter.
use goal_router.Common.{ℕ, String, Bool, Option, some, ◌≡◌}
use goal_router.Common.Integers.{ℤ}

pub record Platform : Type 1 where
  -- `float`, the literals 0.0 and 1.0, and `float(n)`, with `none` for the OverflowError
  pub Float : Type 0
  pub float_zero : Float
  pub float_one : Float
  pub float_of_int : ℤ → Option Float
  -- `datetime`, `isoformat`, `fromisoformat` (`none` for the ValueError), `tzinfo is not None`
  pub Datetime : Type 0
  pub isoformat : Datetime → String
  pub fromisoformat : String → Option Datetime
  pub is_aware : Datetime → Bool
  -- `s.casefold()`, `s.strip()`, `repr(s)`, `str(n)` and `fnmatchcase(name, pattern)`
  pub casefold : String → String
  pub strip : String → String
  pub repr : String → String
  pub decimal : ℕ → String
  pub fnmatch : String → String → Bool

-- `fromisoformat` is documented as the inverse of `isoformat`.
abbrev pub IsoInverse : Platform → Type 0
IsoInverse P = (t : P.Datetime) → P.fromisoformat (P.isoformat t) ≡ some t
