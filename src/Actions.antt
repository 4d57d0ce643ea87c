-- ===== src/Actions.antt =====
-- Code with effects on a state, which may raise: the state is passed on, also by an exception.
use goal_router.Errors.{Error, Result, ok, err}

abbrev pub Action : Type 0 → Type 0 → Type 0
Action S A = S → Result A × S

-- `try: body` / `finally: cleanup`: an error of the cleanup takes the place of one of the body
abbrev pub replaced_by : {A : Type 0} → Result A → Result (Unit {0}) → Result A
replaced_by r (err e) = err e
replaced_by r (ok _) = r

module _ {S A : Type 0} where
  abbrev pub pure : A → Action S A
  pure a s = (ok a, s)

  abbrev pub lift : Result A → Action S A
  lift r s = (r, s)

  -- An exception is answered by another action, which raises in the end.
  abbrev pub on_error : (Error → Action S A) → Result A × S → Result A × S
  on_error handler (ok a, s) = (ok a, s)
  on_error handler (err e, s) = handler e s

module _ {S A B : Type 0} where
  abbrev pub continue : Result A → (A → Action S B) → Action S B
  continue (ok a) f s = f a s
  continue (err e) f s = (err e, s)

  infixl 5 ◌>>=◌ ◌>>◌
  abbrev pub ◌>>=◌ : Action S A → (A → Action S B) → Action S B
  ◌>>=◌ m f s = let (r, s') = m s in continue r f s'

  abbrev pub ◌>>◌ : Action S A → Action S B → Action S B
  m >> n = m >>= λ _. n
