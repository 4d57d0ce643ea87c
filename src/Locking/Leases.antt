-- ===== src/Locking/Leases.antt =====
-- locking.py: the operations of a lease. A note that an error takes on is not modelled.
use goal_router.Common.{ℕ, Bool, true, false, List, [], ◌∷◌}
use goal_router.Errors.{
  Error, Result, ok, err, os_error, state_error, repository_error, cancelled_error,
  project_busy_error, run_busy_error,
}
use goal_router.Locking.{
  Call, Answer, World, effect, open_descriptor, close_descriptor, lock_descriptor,
  unlock_descriptor, noted, answered, result_of,
}

-- What an operation leaves: the world, and its value or its error.
abbrev pub Outcome : Type 0 → Type 0
Outcome A = World × Result A

-- The next operation of a block, which an error leaves.
abbrev pub attempt : {A B : Type 0} → Outcome A → (A → World → Outcome B) → Outcome B
attempt (w, err e) next = (w, err e)
attempt (w, ok a) next = next a w

-- `raise` after a cleanup whose own error is only noted
abbrev pub raise_after : {A B : Type 0} → Error → Outcome A → Outcome B
raise_after e (w, _) = (w, err e)

-- the first of two results that is an error
abbrev pub first_error : Result (Unit {0}) → Result (Unit {0}) → Result (Unit {0})
first_error (err e) second = err e
first_error (ok _) second = second

-- `suppress(FileExistsError)` around `mkdir`
abbrev pub unless_exists : Answer → Result (Unit {0})
unless_exists Answer.exists = ok tt
unless_exists a = result_of a

-- `except (OSError, RuntimeError)`
abbrev pub mapped : {A : Type 0} → Error → Outcome A → Outcome A
mapped e (w, err _) = (w, err e)
mapped e (w, ok a) = (w, ok a)

-- whether a cancellation arrived while the task ran; the task itself runs to its end
abbrev pub was_cancelled : Answer → Bool
was_cancelled Answer.cancelled = true
was_cancelled _ = false

unfoldable pub after_release : Bool → Outcome (Unit {0}) → Outcome (Unit {0})
after_release true (w, r) = (w, err cancelled_error)
after_release false o = o

-- `raise failure_error(error)` for an OSError
abbrev pub mapped_failure : Error → Error → Error
mapped_failure failure_error os_error = failure_error
mapped_failure failure_error e = e

-- the `finally` clause of `_exclusive_lease`
abbrev pub prefer : {A : Type 0} → Result A → Outcome (Unit {0}) → Outcome A
prefer (err e) (w, _) = (w, err e)
prefer (ok a) (w, err e) = (w, err e)
prefer (ok a) (w, ok _) = (w, ok a)

module _ (answer : List Call → Call → Answer) where
  -- `_close_descriptors`, for the descriptors in the order in which they are closed
  unfoldable pub close_descriptors : List ℕ → World → Outcome (Unit {0})
  close_descriptors [] w = (w, ok tt)
  close_descriptors (fd ∷ rest) w =
      let (w1, first) = close_descriptor answer fd w in
      let (w2, others) = close_descriptors rest w1 in (w2, first_error first others)

  -- the `except` clause around `_change_descriptor_mode`
  unfoldable pub close_unless_ok : ℕ → Outcome (Unit {0}) → Outcome ℕ
  close_unless_ok fd (w, ok _) = (w, ok fd)
  close_unless_ok fd (w, err e) = raise_after e (close_descriptor answer fd w)

  -- `_open_private_directory`
  unfoldable pub open_private_directory : ℕ → World → Outcome ℕ
  unfolding close_unless_ok
  open_private_directory parent w =
      let made = unless_exists (answered answer (Call.make_directory parent) w) in
      attempt (noted answer (Call.make_directory parent) w, made)
        (λ _ w1.
          attempt (open_descriptor answer (Call.open_below parent) w1)
            (λ fd w2. close_unless_ok fd (effect answer (Call.change_mode fd) w2)))

  -- `_open_project_directory`
  unfoldable pub open_project_directory : World → Outcome ℕ
  open_project_directory w =
      mapped repository_error
        (attempt (effect answer Call.resolve w) (λ _ w1. open_descriptor answer Call.open_root w1))

  -- The `finally` clause of `_open_run_lock`, for the open directories and the lock descriptor, if it
  -- is open, with the error of the block or `ok` when the descriptor is to be returned.
  unfoldable pub keep_lock : ℕ → Outcome (Unit {0}) → Outcome ℕ
  keep_lock fd (w, ok _) = (w, ok fd)
  keep_lock fd (w, err _) = raise_after state_error (close_descriptors (fd ∷ []) w)

  -- `except OSError`; the error of the type check is the same
  abbrev pub fail : List ℕ → World → Outcome ℕ
  fail directories w = raise_after state_error (close_descriptors directories w)

  unfoldable pub give_up : ℕ → List ℕ → World → Outcome ℕ
  give_up fd directories w = fail directories (close_descriptors (fd ∷ []) w).0

  unfoldable pub after_mode : ℕ → List ℕ → Outcome (Unit {0}) → Outcome ℕ
  unfolding keep_lock give_up
  after_mode fd directories (w, ok _) = keep_lock fd (close_descriptors directories w)
  after_mode fd directories (w, err _) = give_up fd directories w

  unfoldable pub after_inspection : ℕ → List ℕ → World → Answer → Outcome ℕ
  unfolding after_mode give_up
  after_inspection fd directories w Answer.done =
      after_mode fd directories (effect answer (Call.change_mode fd) w)
  after_inspection fd directories w _ = give_up fd directories w

  -- the checks of the lock file
  unfoldable pub check_lock : ℕ → List ℕ → World → Outcome ℕ
  unfolding after_inspection
  check_lock fd directories w =
      after_inspection fd directories (noted answer (Call.inspect fd) w)
        (answered answer (Call.inspect fd) w)

  -- the next step of the block, with the directories opened so far
  abbrev pub or_close : {A : Type 0} → List ℕ → Outcome A → (A → World → Outcome ℕ) → Outcome ℕ
  or_close directories (w, err _) next = fail directories w
  or_close directories (w, ok a) next = next a w

  -- `_open_run_lock`
  unfoldable pub open_run_lock : World → Outcome ℕ
  unfolding check_lock
  open_run_lock w = or_close [] (effect answer Call.make_state_root w) (λ _ w1.
      or_close [] (open_descriptor answer Call.open_root w1) (λ root w2.
        or_close (root ∷ []) (open_private_directory root w2) (λ locks w3.
          or_close (locks ∷ root ∷ []) (open_private_directory locks w3) (λ runs w4.
            or_close (runs ∷ locks ∷ root ∷ []) (open_descriptor answer (Call.open_below runs) w4)
              (λ fd w5. check_lock fd (runs ∷ locks ∷ root ∷ []) w5)))))

  -- the `except` clause of `_acquire_descriptor`
  unfoldable pub after_lock : Error → ℕ → World → Answer → Outcome ℕ
  after_lock busy_error fd w Answer.done = (w, ok fd)
  after_lock busy_error fd w Answer.busy = raise_after busy_error (close_descriptor answer fd w)
  after_lock busy_error fd w _ = raise_after os_error (close_descriptor answer fd w)

  unfoldable pub lock_opened : Error → ℕ → World → Outcome ℕ
  unfolding after_lock
  lock_opened busy_error fd w =
      let (w1, a) = lock_descriptor answer fd w in after_lock busy_error fd w1 a

  -- `_acquire_descriptor`
  unfoldable pub acquire_descriptor : (World → Outcome ℕ) → Error → World → Outcome ℕ
  unfolding lock_opened
  acquire_descriptor open_operation busy_error w =
      attempt (open_operation w) (λ fd w1. lock_opened busy_error fd w1)

  -- `_release_descriptor`
  unfoldable pub release_descriptor : ℕ → World → Outcome (Unit {0})
  release_descriptor fd w =
      let (w1, unlocked) = unlock_descriptor answer fd w in
      let (w2, closed) = close_descriptor answer fd w1 in (w2, first_error unlocked closed)

  -- `_release_cancellation_safe`
  unfoldable pub release_cancellation_safe : ℕ → World → Outcome (Unit {0})
  unfolding after_release
  release_cancellation_safe fd w =
      let (w1, r) = release_descriptor fd w in
      after_release (was_cancelled (answered answer Call.wait w1)) (noted answer Call.wait w1, r)

  unfoldable pub after_acquisition : Error → Bool → Outcome ℕ → Outcome ℕ
  after_acquisition failure_error true (w, err e) = (w, err cancelled_error)
  after_acquisition failure_error false (w, err e) = (w, err (mapped_failure failure_error e))
  after_acquisition failure_error true (w, ok fd) =
      raise_after cancelled_error (release_cancellation_safe fd w)
  after_acquisition failure_error false (w, ok fd) = (w, ok fd)

  -- `_acquire_cancellation_safe`
  unfoldable pub acquire_cancellation_safe :
      (World → Outcome ℕ) → (busy_error failure_error : Error) → World → Outcome ℕ
  unfolding after_acquisition
  acquire_cancellation_safe open_operation busy_error failure_error w =
      let (w1, r) = acquire_descriptor open_operation busy_error w in
      after_acquisition failure_error (was_cancelled (answered answer Call.wait w1))
        (noted answer Call.wait w1, r)

  abbrev pub leased : {A : Type 0} → (World → Outcome A) → ℕ → World → Outcome A
  leased body fd w = let (w1, r) = body w in prefer r (release_cancellation_safe fd w1)

  -- `_exclusive_lease`, around a body
  unfoldable pub exclusive_lease :
      {A : Type 0}
      → (World → Outcome ℕ)
      → (busy_error failure_error : Error) → (World → Outcome A)
      → World
      → Outcome A
  exclusive_lease open_operation busy_error failure_error body w =
      attempt (acquire_cancellation_safe open_operation busy_error failure_error w) (leased body)

  -- `ProjectDirectoryWriteLease.acquire`, around a body
  unfoldable pub project_lease : {A : Type 0} → (World → Outcome A) → World → Outcome A
  project_lease = exclusive_lease open_project_directory project_busy_error repository_error

  -- what `FileRunLease.acquire` returns after `validate_run_id` (RunIds)
  unfoldable pub run_lease : {A : Type 0} → (World → Outcome A) → World → Outcome A
  run_lease = exclusive_lease open_run_lock run_busy_error state_error
