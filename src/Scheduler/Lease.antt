-- ===== src/Scheduler/Lease.antt =====
-- scheduler.py: the project lease around a work item that writes.
use goal_router.Common.{◌≡◌, refl, ◌⊎◌, inl, inr, ◌∷◌}
use goal_router.Errors.{Error, Result, ok, err}
use goal_router.Domain.Platform.{Platform}
use goal_router.Domain.Json.{JsonValue}
use goal_router.Common.{String}
use goal_router.Domain.FilePath.{FilePath}
use goal_router.Domain.WorkItem.{WorkItem}
use goal_router.Approvals.{require_dispatchable}
use goal_router.Scheduler.Effects.{Effect, Environment, World, first_error}
use goal_router.Scheduler.{normalize, with_lease, run_writer}

pub Result-cases :
    {A : Type 0} (r : Result A) → ((e : Error) × (r ≡ err e)) ⊎ ((a : A) × (r ≡ ok a))
Result-cases (err e) = inl (e, refl)
Result-cases (ok a) = inr (a, refl)

module _ {P : Platform} (env : Environment P) (digest : JsonValue P → String) (item : WorkItem P)
    (w : World P) where
  abbrev pub before : World P
  before = (normalize env digest w).1

  abbrev path : FilePath
  path = before.state.objective.project_path

  -- the world in which the lease is asked for
  abbrev pub asked : World P
  asked = record before { log = Effect.acquire path ∷ before.log }

  abbrev pub leased : Result (Unit {0}) × World P
  leased = with_lease env digest item asked

  -- the world after the lease is given back
  abbrev pub returned : World P
  returned = record (leased.1) { log = Effect.release path ∷ (leased.1).log }

  refused_later :
      (e : Error)
      → require_dispatchable digest asked.state item.id ≡ err e
      → leased ≡ (err e, asked)
  unfolding with_lease
  refused_later e h = rw h refl

  -- A write ends in one of three ways: the store refuses the change of status, and the lease is not
  -- asked for; the lease is refused, and that is the last effect; or the lease is given, and then the
  -- last effect gives it back, whether the item's run ended with a result or an error. In the third
  -- case, an item that the approvals no longer let through makes no call.
  pub run_writer-cases :
      ((e : Error) × ((normalize env digest w).0 ≡ err e)
        × (run_writer env digest item w ≡ (err e, before)))
      ⊎ ((e : Error) × (env.acquire asked.log ≡ err e)
          × (run_writer env digest item w ≡ (err e, asked)))
      ⊎ ((env.acquire asked.log ≡ ok tt)
          × (run_writer env digest item w
              ≡ (first_error leased.0 (env.release (returned.log)), returned))
          × ((e : Error)
              → require_dispatchable digest asked.state item.id ≡ err e
              → leased ≡ (err e, asked)))
  unfolding run_writer
  run_writer-cases = elim (Result-cases (normalize env digest w).0) [
    | inl (e, h) ↦ inl (e, h, rw h refl)
    | inr (u, h) ↦ elim (Result-cases (env.acquire asked.log)) [
      | inl (e, k) ↦ inr (inl (e, k, rw (h, k) refl))
      | inr (v, k) ↦ inr (inr (k, rw (h, k) refl, refused_later))
    ]
  ]
