-- ===== src/Application/Coordinator/Refusals.antt =====
-- application.py: a stored run of another configuration.
use goal_router.Common.{String, false, some, ◌∷◌, ◌≡◌, refl, ◌==◌}
use goal_router.Errors.{ok, err, resume_configuration_changed_error}
use goal_router.Domain.Platform.{Platform}
use goal_router.Domain.RunState.{RunState}
use goal_router.Application.Ports.{Effect, Log, Ports, Action, ◌>>=◌, with_run_lease, enter, leave}
use goal_router.Application.Operations.{Parts, check_digest}
use goal_router.Application.Coordinator.{
  load_run, resume, resume_unlocked, approve, approve_unlocked,
}

module _ {P : Platform} (parts : Parts P) (ports : Ports P) where
  -- what is done under the lease when the loaded run is refused
  abbrev pub refused_log : String → Log P → Log P
  refused_log id log = Effect.release id ∷ Effect.load id ∷ Effect.acquire id ∷ log

  check_digest-changed :
      (state : RunState P)
      → (state.configuration_digest == parts.config.digest) ≡ false
      → check_digest (some parts.config.digest) false state ≡ err resume_configuration_changed_error
  unfolding check_digest
  check_digest-changed state changed = rw changed refl

  module _ (id : String) (log : Log P) (state : RunState P) where
    refused :
        {A : Type 0} (body : RunState P → Action P A)
        → ports.acquire (Effect.acquire id ∷ log) ≡ ok tt
        → ports.load (Effect.load id ∷ Effect.acquire id ∷ log) ≡ ok state
        → (state.configuration_digest == parts.config.digest) ≡ false
        → with_run_lease ports id
            (load_run parts ports id (some parts.config.digest) false >>= body)
            log
          ≡ (err resume_configuration_changed_error, refused_log id log)
    unfolding with_run_lease enter leave load_run
    refused body given loaded changed =
        rw given (rw loaded (rw (check_digest-changed state changed) refl))

    -- If the lease is given and the run that is loaded has another configuration's digest, neither
    -- `resume` without an acknowledgement nor `approve` does more than take the lease, load the run and
    -- give the lease back; both raise ResumeConfigurationChangedError.
    pub changed_configuration :
        (item_id by : String)
        → ports.acquire (Effect.acquire id ∷ log) ≡ ok tt
        → ports.load (Effect.load id ∷ Effect.acquire id ∷ log) ≡ ok state
        → (state.configuration_digest == parts.config.digest) ≡ false
        → (resume parts ports id false log
            ≡ (err resume_configuration_changed_error, refused_log id log))
          × (approve parts ports id item_id by log
              ≡ (err resume_configuration_changed_error, refused_log id log))
    unfolding resume resume_unlocked approve approve_unlocked
    changed_configuration item_id by given loaded changed =
        (refused _ given loaded changed, refused _ given loaded changed)
