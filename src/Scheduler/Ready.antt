-- ===== src/Scheduler/Ready.antt =====
-- scheduler.py: the items that the scheduler may dispatch.
use goal_router.Common.{
  Bool, true, ◌&&◌, Option, none, some, List, [], ◌∷◌, ◌≡◌, refl, inl, inr, arith, All, all, filter,
  Bool-cases, String,
}
use goal_router.Common.Dict
use goal_router.Errors.{Result, ok, err}
use goal_router.Domain.Platform.{Platform}
use goal_router.Domain.Json.{JsonValue}
use goal_router.Domain.Enums.{WorkStatus}
use goal_router.Domain.WorkItem.{WorkItem}
use goal_router.Domain.WorkResult.{WorkResult}
use goal_router.Domain.RunState.{RunState}
use goal_router.Approvals.Binding.{IsDispatchable, require_dispatchable_iff}
use goal_router.Scheduler.Status.{is_ready, is_succeeded, result_is, pending_items}
use goal_router.Scheduler.Completion.{is_succeeded-eq}
use goal_router.Scheduler.{passed, may_dispatch, dispatchable}

module _ {P : Platform} where
  -- There is a result for the identifier, and it is a success.
  abbrev pub HasSucceeded : RunState P → String → Type 0
  HasSucceeded state d =
      (r : WorkResult P) × (Dict.get state.results d ≡ some r) × (r.status ≡ WorkStatus.succeeded)

  result-HasSucceeded :
      (o : Option (WorkResult P))
      → result_is is_succeeded o ≡ true
      → (r : WorkResult P) × (o ≡ some r) × (r.status ≡ WorkStatus.succeeded)
  result-HasSucceeded none h = absurd (ground arith)
  result-HasSucceeded (some r) h = (r, refl, is_succeeded-eq r.status h)

  all-HasSucceeded :
      (state : RunState P) (ds : List String)
      → all (λ d. result_is is_succeeded (Dict.get state.results d)) ds ≡ true
      → All (HasSucceeded state) ds
  all-HasSucceeded state [] h = tt
  all-HasSucceeded state (d ∷ ds) h = (
    result-HasSucceeded (Dict.get state.results d) (ground arith),
    all-HasSucceeded state ds (ground arith),
  )

passed-eq : (r : Result (Unit {0})) → passed r ≡ true → r ≡ ok tt
passed-eq (ok tt) h = refl
passed-eq (err e) h = cc

filter-All :
    {A : Type 0} (test : A → Bool) (Q : A → Type 0)
    → ((a : A) → test a ≡ true → Q a)
    → (xs : List A) → All Q (filter test xs)
filter-All test Q good [] = tt
filter-All test Q good (x ∷ xs) = elim (Bool-cases (test x)) [
  | inl holds ↦ rw holds (good x holds, filter-All test Q good xs)
  | inr fails ↦ rw fails (filter-All test Q good xs)
]

module _ {P : Platform} (digest : JsonValue P → String) (state : RunState P) where
  abbrev pub IsCleared : WorkItem P → Type 0
  IsCleared item = All (HasSucceeded state) item.dependencies × IsDispatchable digest state item.id

  pub IsCleared-of :
      (item : WorkItem P)
      → (is_ready state item && may_dispatch digest state item) ≡ true
      → IsCleared item
  unfolding is_ready may_dispatch
  IsCleared-of item h = (
    all-HasSucceeded state item.dependencies (ground arith),
    (require_dispatchable_iff digest state item.id).0 (passed-eq _ (ground arith)),
  )

  -- Every item that the scheduler picks for dispatch has a successful result for each dependency, and
  -- either its route needs no approval or the state holds an approval of this run and configuration
  -- whose fingerprint is that of the present item and route.
  pub dispatchable-IsCleared : All IsCleared (dispatchable digest state)
  unfolding dispatchable
  dispatchable-IsCleared = filter-All _ IsCleared IsCleared-of (pending_items state)
