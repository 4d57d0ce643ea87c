-- ===== src/Scheduler/Completion.antt =====
-- scheduler.py: the final status of a run.
use mathlib.Core.Path.{◌≡◌}
use goal_router.Common.{
  ℕ, Bool, true, false, List, [], ◌∷◌, refl, arith, All, all, any, Bool-cases, inl, inr, length,
  eqb, eqb→eq, ◌↔◌, ◌&&◌,
}
use goal_router.Common.Dict.{values}
use goal_router.Errors.{Result, ok, err}
use goal_router.Domain.Platform.{Platform}
use goal_router.Domain.Enums.{WorkStatus, RunStatus}
use goal_router.Domain.WorkResult.{WorkResult}
use goal_router.Domain.RunState.{RunState}
use goal_router.Scheduler.Status.{
  final_status, waiting_status, any_waits, is_succeeded, is_failed, is_blocked,
}

pub is_succeeded-eq : (s : WorkStatus) → is_succeeded s ≡ true → s ≡ WorkStatus.succeeded
is_succeeded-eq s h = ground arith

eqb_refl : (n : ℕ) → eqb n n ≡ true
eqb_refl n = ground arith

not_completed : (r : Result Bool) → ¬ (waiting_status r ≡ ok RunStatus.completed)
unfolding waiting_status
not_completed (ok true) h = cc
not_completed (ok false) h = cc
not_completed (err e) h = cc

module _ {P : Platform} where
  abbrev pub Succeeded : List (WorkResult P) → Type 0
  Succeeded results = All (λ r. r.status ≡ WorkStatus.succeeded) results

  all-Succeeded :
      (rs : List (WorkResult P)) → all (λ r. is_succeeded r.status) rs ≡ true → Succeeded rs
  all-Succeeded [] h = tt
  all-Succeeded (r ∷ rs) h =
      (is_succeeded-eq r.status (ground arith), all-Succeeded rs (ground arith))

  Succeeded-tests :
      (rs : List (WorkResult P))
      → Succeeded rs
      → (any (λ r. is_failed r.status) rs ≡ false)
        × (any (λ r. is_blocked r.status) rs ≡ false)
        × (all (λ r. is_succeeded r.status) rs ≡ true)
  Succeeded-tests [] h = (refl, refl, refl)
  Succeeded-tests (r ∷ rs) (h, hs) =
      let (a, b, c) = Succeeded-tests rs hs in (rw (h, a) refl, rw (h, b) refl, rw (h, c) refl)

  -- A run is completed exactly if it has as many results as work items and every result is a
  -- success.
  pub final_status-completed :
      (state : RunState P)
      → (final_status state ≡ ok RunStatus.completed)
        ↔ ((length state.results ≡ length state.work_items) × Succeeded (values state.results))
  unfolding final_status
  final_status-completed state = (
    λ h.
        let rs = values state.results in
        elim (Bool-cases (any (λ r. is_failed r.status) rs)) [
          | inl failed ↦ absurd (ground arith)
          | inr a ↦ elim (Bool-cases (any (λ r. is_blocked r.status) rs)) [
            | inl stuck ↦ absurd (ground arith)
            | inr b ↦
                elim (Bool-cases (
                  eqb (length state.results) (length state.work_items)
                  && all (λ r. is_succeeded r.status) rs)) [
                    | inl done ↦ (eqb→eq _ _ (ground arith), all-Succeeded rs (ground arith))
                    | inr open_ ↦ absurd (
                        not_completed (any_waits state (values state.work_items))
                          (rw (a, b, open_) at h))
                  ]
          ]
        ],
    λ (same, good).
        let (a, b, c) = Succeeded-tests (values state.results) good in
        rw (a, b, c, same, eqb_refl (length state.work_items)) refl,
  )
