-- ===== src/Locking/Protocol.antt =====
-- locking.py: `_exclusive_lease` around a body.
use mathlib.Core.Path.{subst}
use goal_router.Common.{
  ℕ, Bool, true, false, not, ◌&&◌, eqb, List, [], ◌≡◌, refl, sym, ◌⊎◌, inl, inr, arith,
}
use goal_router.Errors.{
  Error, Result, ok, err, state_error, repository_error, project_busy_error, run_busy_error,
}
use goal_router.Locking.{Call, Answer, World, unlock_descriptor, close_descriptor}
use goal_router.Locking.Leases.{
  Outcome, attempt, acquire_descriptor, acquire_cancellation_safe, prefer, after_release,
  release_descriptor, release_cancellation_safe, leased, exclusive_lease, project_lease, run_lease,
  open_project_directory, open_run_lock,
}
use goal_router.Locking.Balance.{IsBounded, Adds, Owns}
use goal_router.Locking.Opening.{open_project_directory-Owns, open_run_lock-Owns}
use goal_router.Locking.Acquired.{
  Locked, Acquired, Locked-IsBounded, Locked-none, release_cancellation_safe-Adds,
  lock_opened-Acquired, after_acquisition-Acquired, waited,
}

-- An operation that leaves no descriptor and no lock.
abbrev pub IsBalanced : {A : Type 0} → (World → Outcome A) → Type 0
IsBalanced op = (w : World) → IsBounded w → Adds [] w (op w).0

-- The descriptor is closed and its lock is gone, and no other has changed.
pub record IsGivenUp (fd : ℕ) (before after : World) : Type 0 where
  pub held : (k : ℕ) → after.held k ≡ (not (eqb k fd) && before.held k)
  pub opened : (k : ℕ) → after.opened k ≡ (not (eqb k fd) && before.opened k)

-- The body runs while a new descriptor has the lock, and the descriptor is given up after it; the result
-- is the body's, or an error of giving it up takes the place of its value. Or an error is raised before it and nothing is left.
abbrev pub RunsLocked : {A : Type 0} → (World → Outcome A) → World → Outcome A → Type 0
RunsLocked {A} body w o =
    ((fd : ℕ) × (w1 : World) × Locked w fd w1
      × IsGivenUp fd (body w1).0 o.0
      × ((o.1 ≡ (body w1).1) ⊎ ((a : A) × (e : Error) × ((body w1).1 ≡ ok a) × (o.1 ≡ err e))))
    ⊎ ((e : Error) × (w1 : World) × Adds [] w w1 × (o ≡ (w1, err e)))

module _ (answer : List Call → Call → Answer) where
  -- the body between the acquisition and the release, or an error before it that leaves nothing
  abbrev Leases : {A : Type 0} → (World → Outcome A) → World → Outcome A → Type 0
  Leases body w o =
      ((fd : ℕ) × (w1 : World) × Locked w fd w1 × (o ≡ leased answer body fd w1))
      ⊎ ((e : Error) × (w1 : World) × Adds [] w w1 × (o ≡ (w1, err e)))

  module _ (open_operation : World → Outcome ℕ) (busy failure : Error)
      (owns : (w : World) → IsBounded w → Owns w (open_operation w)) where
    acquire_cancellation_safe-Acquired :
        (w : World)
        → IsBounded w
        → Acquired w (acquire_cancellation_safe answer open_operation busy failure w)
    unfolding acquire_cancellation_safe acquire_descriptor
    acquire_cancellation_safe-Acquired w bounded =
        after_acquisition-Acquired answer failure _ _ bounded (
          waited answer w (acquire_descriptor answer open_operation busy w)
            (lock_opened-Acquired answer busy (open_operation w) bounded (owns w bounded)))

    attempt-Leases :
        {A : Type 0} (body : World → Outcome A) (w : World) (o : Outcome ℕ)
        → Acquired w o
        → Leases body w (attempt o (leased answer body))
    attempt-Leases body w (w1, ok fd) a = inl (fd, w1, a, refl)
    attempt-Leases body w (w1, err e) a = inr (e, w1, a, refl)

    exclusive_lease-Leases :
        {A : Type 0} (body : World → Outcome A) (w : World)
        → IsBounded w
        → Leases body w (exclusive_lease answer open_operation busy failure body w)
    unfolding exclusive_lease
    exclusive_lease-Leases body w bounded =
        attempt-Leases body w _ (acquire_cancellation_safe-Acquired w bounded)

    prefer-Adds :
        {A : Type 0} {w : World} (r : Result A) (o : Outcome (Unit {0}))
        → Adds [] w o.0
        → Adds [] w (prefer r o).0
    prefer-Adds (err e) o a = a
    prefer-Adds (ok x) (w1, err e) a = a
    prefer-Adds (ok x) (w1, ok _) a = a

    exclusive_lease-IsBalanced :
        {A : Type 0} (body : World → Outcome A)
        → IsBalanced body
        → IsBalanced (exclusive_lease answer open_operation busy failure body)
    exclusive_lease-IsBalanced body balanced w bounded =
        elim (exclusive_lease-Leases body w bounded) [
          | inl (fd, w1, a, e) ↦
              subst (λ (o : Outcome _). Adds [] w o.0) (sym e)
                (prefer-Adds (body w1).1 _ (
                  release_cancellation_safe-Adds answer fd (body w1).0 bounded
                    (Locked-none a (balanced w1 (Locked-IsBounded bounded a)))))
          | inr (e, w1, a, p) ↦ subst (λ (o : Outcome _). Adds [] w o.0) (sym p) a
        ]

  -- If the body leaves no descriptor and no lock of its own, neither does a project lease or a run
  -- lease around it, whichever call fails, is refused or is cancelled.
  pub leases-Adds :
      {A : Type 0} (body : World → Outcome A)
      → IsBalanced body
      → (w : World) → IsBounded w
      → Adds [] w (project_lease answer body w).0 × Adds [] w (run_lease answer body w).0
  unfolding project_lease run_lease
  leases-Adds body balanced w bounded = (
    exclusive_lease-IsBalanced (open_project_directory answer) project_busy_error repository_error
        (λ w1 _. open_project_directory-Owns answer w1) body balanced w bounded,
    exclusive_lease-IsBalanced (open_run_lock answer) run_busy_error state_error
        (open_run_lock-Owns answer) body balanced w bounded,
  )

  after_release-IsGivenUp :
      (fd : ℕ) (w : World) (was : Bool) (o : Outcome (Unit {0}))
      → IsGivenUp fd w o.0
      → IsGivenUp fd w (after_release was o).0
  unfolding after_release
  after_release-IsGivenUp fd w true o h = h
  after_release-IsGivenUp fd w false o h = h

  release_cancellation_safe-IsGivenUp :
      (fd : ℕ) (w : World) → IsGivenUp fd w (release_cancellation_safe answer fd w).0
  unfolding release_cancellation_safe release_descriptor unlock_descriptor close_descriptor
  release_cancellation_safe-IsGivenUp fd w =
      after_release-IsGivenUp fd w _ _ (record { held = λ k. ground arith; opened = λ k. refl })

  prefer-IsGivenUp :
      {A : Type 0} (fd : ℕ) (w : World) (r : Result A) (o : Outcome (Unit {0}))
      → IsGivenUp fd w o.0
      → IsGivenUp fd w (prefer r o).0
        × (((prefer r o).1 ≡ r) ⊎ ((a : A) × (e : Error) × (r ≡ ok a) × ((prefer r o).1 ≡ err e)))
  prefer-IsGivenUp fd w (err e) o h = (h, inl refl)
  prefer-IsGivenUp fd w (ok a) (w1, err e) h = (h, inr (a, e, refl, refl))
  prefer-IsGivenUp fd w (ok a) (w1, ok u) h = (h, inl refl)

  Leases-RunsLocked :
      {A : Type 0} (body : World → Outcome A) (w : World) (o : Outcome A)
      → Leases body w o
      → RunsLocked body w o
  Leases-RunsLocked body w o (inl (fd, w1, locked, e)) =
      let (up, value) =
        prefer-IsGivenUp fd (body w1).0 (body w1).1 _
          (release_cancellation_safe-IsGivenUp fd (body w1).0) in
      subst (RunsLocked body w) (sym e) (inl (fd, w1, locked, up, value))
  Leases-RunsLocked body w o (inr h) = inr h

  -- A run lease either runs the body while a new descriptor has the lock, and then closes that descriptor,
  -- with its lock gone, and changes no other; the result is then the body's, or an error in the place of its value.
  -- Or it raises before the body and leaves the descriptors and locks as they were.
  pub run_lease-RunsLocked :
      {A : Type 0} (body : World → Outcome A) (w : World)
      → IsBounded w
      → RunsLocked body w (run_lease answer body w)
  unfolding run_lease
  run_lease-RunsLocked body w bounded = Leases-RunsLocked body w (run_lease answer body w) (
      exclusive_lease-Leases (open_run_lock answer) run_busy_error state_error
        (open_run_lock-Owns answer) body w bounded)
