-- ===== src/Errors.antt =====
-- src/goalrouter/errors.py: the failures and their exit codes. An exception is its class; its
-- message is not modelled. The other classes that the modelled code can raise stand beside them.
use mathlib.Core.Path.{◌≡◌, refl}
use goal_router.Common.{ℕ, Bool, true, false}

pub data Error : Type 0 where
  goal_router_error : Error
  configuration_error : Error
  unknown_task_error : Error
  model_unavailable_error : Error
  repository_error : Error
  planner_output_error : Error
  approval_required_error : Error
  dependency_blocked_error : Error
  sdk_error : Error
  authentication_error : Error
  turn_timeout_error : Error
  state_error : Error
  resume_configuration_changed_error : Error
  project_busy_error : Error
  run_busy_error : Error
  -- planner.py: `_StructuralPlannerOutputError`, a subclass of PlannerOutputError
  structural_planner_output_error : Error
  -- built-in exceptions
  key_error type_error value_error overflow_error recursion_error os_error : Error
  -- asyncio.CancelledError
  cancelled_error : Error

-- The exit code that `async_main` returns for the failure; 1 stands for an exception that is no
-- GoalRouterError, with which the interpreter exits.
unfoldable pub exit_code : Error → ℕ
exit_code goal_router_error = 1
exit_code configuration_error = 2
exit_code unknown_task_error = 3
exit_code model_unavailable_error = 4
exit_code repository_error = 5
exit_code planner_output_error = 6
exit_code structural_planner_output_error = 6
exit_code approval_required_error = 7
exit_code dependency_blocked_error = 8
exit_code sdk_error = 9
exit_code authentication_error = 10
exit_code turn_timeout_error = 11
exit_code state_error = 12
exit_code resume_configuration_changed_error = 13
exit_code project_busy_error = 14
exit_code run_busy_error = 15
exit_code _ = 1

-- The result of code that may raise.
pub data Result {ℓ} (A : Type ℓ) : Type ℓ where
  err : (error : Error) → Result A
  ok : (value : A) → Result A

-- `if not test: raise error`
abbrev pub guard : Bool → Error → Result (Unit {0})
guard false error = err error
guard true error = ok tt

module _ {ℓ κ} {A : Type ℓ} {B : Type κ} where
  infixl 5 ◌>>=◌
  abbrev pub ◌>>=◌ : Result A → (A → Result B) → Result B
  err error >>= next = err error
  ok value >>= next = next value

  -- the two halves of a block that returns
  pub >>=-eq-ok :
      (m : Result A) (next : A → Result B) {b : B}
      → (m >>= next) ≡ ok b
      → (a : A) × (m ≡ ok a) × (next a ≡ ok b)
  >>=-eq-ok (err error) next h = cc
  >>=-eq-ok (ok value) next h = (value, refl, h)

infixl 5 ◌>>◌
abbrev pub ◌>>◌ {κ} : {B : Type κ} → Result (Unit {0}) → Result B → Result B
first >> second = first >>= (λ u. second)

pub guard-eq-ok : (test : Bool) (e : Error) → guard test e ≡ ok tt → test ≡ true
guard-eq-ok true e h = refl
guard-eq-ok false e h = cc

pub ok-injective {ℓ} : {A : Type ℓ} {a b : A} → ok a ≡ ok b → a ≡ b
ok-injective h = cc

pub bind-ok :
    {A B : Type 0}
    → (m : Result A) (f : A → Result B) {a : A} {b : B} → m ≡ ok a
    → f a ≡ ok b
    → (m >>= f) ≡ ok b
bind-ok m f h k = rw h k
