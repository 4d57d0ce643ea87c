-- ===== src/Locking/Progress.antt =====
-- locking.py: the leases on a system where every call but the lock succeeds.
use goal_router.Common.{List, ◌≡◌, refl}
use goal_router.Errors.{Result, ok, err, project_busy_error, run_busy_error}
use goal_router.Locking.{Call, Answer, World}
use goal_router.Locking.Leases.{Outcome, prefer, project_lease, run_lease}

-- Every call succeeds, and the lock is answered with this.
abbrev pub working : Answer → List Call → Call → Answer
working a calls (Call.lock descriptor) = a
working a calls _ = Answer.done

prefer-ok :
    {A : Type 0} (r : Result A) (w : World) {a : A} → r ≡ ok a → (prefer r (w, ok tt)).1 ≡ ok a
prefer-ok (ok x) w e = e
prefer-ok (err e') w e = cc

module _ {A : Type 0} (body : World → Outcome A) (w : World) where
  run_lease-free :
      (a : A)
      → ((w1 : World) → (body w1).1 ≡ ok a)
      → (run_lease (working Answer.done) body w).1 ≡ ok a
  unfolding run_lease goal_router.Locking.Leases.exclusive_lease
      goal_router.Locking.Leases.acquire_cancellation_safe
      goal_router.Locking.Leases.acquire_descriptor goal_router.Locking.Leases.lock_opened
      goal_router.Locking.Leases.after_lock goal_router.Locking.Leases.after_acquisition
      goal_router.Locking.effect goal_router.Locking.open_descriptor
      goal_router.Locking.close_descriptor goal_router.Locking.lock_descriptor
      goal_router.Locking.unlock_descriptor goal_router.Locking.Leases.release_cancellation_safe
      goal_router.Locking.Leases.release_descriptor goal_router.Locking.Leases.open_run_lock
      goal_router.Locking.Leases.open_private_directory goal_router.Locking.Leases.close_descriptors
  run_lease-free a h = prefer-ok _ _ (h _)

  project_lease-free :
      (a : A)
      → ((w1 : World) → (body w1).1 ≡ ok a)
      → (project_lease (working Answer.done) body w).1 ≡ ok a
  unfolding project_lease goal_router.Locking.Leases.exclusive_lease
      goal_router.Locking.Leases.acquire_cancellation_safe
      goal_router.Locking.Leases.acquire_descriptor goal_router.Locking.Leases.lock_opened
      goal_router.Locking.Leases.after_lock goal_router.Locking.Leases.after_acquisition
      goal_router.Locking.effect goal_router.Locking.open_descriptor
      goal_router.Locking.close_descriptor goal_router.Locking.lock_descriptor
      goal_router.Locking.unlock_descriptor goal_router.Locking.Leases.release_cancellation_safe
      goal_router.Locking.Leases.release_descriptor
      goal_router.Locking.Leases.open_project_directory
  project_lease-free a h = prefer-ok _ _ (h _)

  run_lease-busy : (run_lease (working Answer.busy) body w).1 ≡ err run_busy_error
  unfolding run_lease goal_router.Locking.Leases.exclusive_lease
      goal_router.Locking.Leases.acquire_cancellation_safe
      goal_router.Locking.Leases.acquire_descriptor goal_router.Locking.Leases.lock_opened
      goal_router.Locking.Leases.after_lock goal_router.Locking.Leases.after_acquisition
      goal_router.Locking.effect goal_router.Locking.open_descriptor
      goal_router.Locking.close_descriptor goal_router.Locking.lock_descriptor
      goal_router.Locking.unlock_descriptor goal_router.Locking.Leases.release_cancellation_safe
      goal_router.Locking.Leases.release_descriptor goal_router.Locking.Leases.open_run_lock
      goal_router.Locking.Leases.open_private_directory goal_router.Locking.Leases.close_descriptors
  run_lease-busy = refl

  project_lease-busy : (project_lease (working Answer.busy) body w).1 ≡ err project_busy_error
  unfolding project_lease goal_router.Locking.Leases.exclusive_lease
      goal_router.Locking.Leases.acquire_cancellation_safe
      goal_router.Locking.Leases.acquire_descriptor goal_router.Locking.Leases.lock_opened
      goal_router.Locking.Leases.after_lock goal_router.Locking.Leases.after_acquisition
      goal_router.Locking.effect goal_router.Locking.open_descriptor
      goal_router.Locking.close_descriptor goal_router.Locking.lock_descriptor
      goal_router.Locking.unlock_descriptor goal_router.Locking.Leases.release_cancellation_safe
      goal_router.Locking.Leases.release_descriptor
      goal_router.Locking.Leases.open_project_directory
  project_lease-busy = refl

-- On a system where every call but the lock succeeds, a lease around a body that returns returns the
-- value of the body if the lock is free, and raises its own busy error if it is taken.
pub leases-end :
    {A : Type 0} (body : World → Outcome A) (w : World) (a : A)
    → ((w1 : World) → (body w1).1 ≡ ok a)
    → ((project_lease (working Answer.done) body w).1 ≡ ok a)
      × ((run_lease (working Answer.done) body w).1 ≡ ok a)
      × ((project_lease (working Answer.busy) body w).1 ≡ err project_busy_error)
      × ((run_lease (working Answer.busy) body w).1 ≡ err run_busy_error)
leases-end body w a h = (
  project_lease-free body w a h,
  run_lease-free body w a h,
  project_lease-busy body w,
  run_lease-busy body w,
)
