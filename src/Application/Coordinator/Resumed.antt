-- ===== src/Application/Coordinator/Resumed.antt =====
-- application.py: the use cases of a loaded run, with their lease and their order of effects.
use goal_router.Common.{
  String, Option, Bool, true, false, not, none, some, [], ◌∷◌, ◌≡◌, refl, sym, ap, ◌==◌, inl, inr,
  Bool-cases, ◌&&◌, eq_iff, ◌∙◌,
}
use mathlib.Core.Path.{subst}
use goal_router.Common.Dict.{Dict}
use goal_router.Errors.{
  Result, ok, err, guard, >>=-eq-ok, ok-injective, approval_required_error,
  resume_configuration_changed_error,
}
use goal_router.Domain.Platform.{Platform}
use goal_router.Domain.Json.{JsonValue, str}
use goal_router.Domain.RunState.{RunState}
use goal_router.Scheduler.Pending.{IsWellFormed}
use goal_router.Application.{adopt_current_configuration}
use goal_router.Application.Ports.{Effect, Log, Ports, Action, lift, perform, ◌>>◌}
use goal_router.Application.Operations.{Parts, check_digest, event}
use goal_router.Application.Coordinator.{
  continue_run, load_run, approve_unlocked, adopt, ensure_current, resume_unlocked, report_unlocked,
}
use goal_router.Application.Coordinator.Guard.{
  is_held, is_validated, Does, Does->>=, Does-pure, Does-lift, Does-perform, Does-map,
}
use goal_router.Application.Coordinator.Stages.{
  Anything, IsReady, validate_model_inventory-Does, event-Does, write_report-Does,
}
use goal_router.Application.Coordinator.Guarded.{save-Does, reported-Does}
use goal_router.Application.Coordinator.{approved_state}
use goal_router.Application.Coordinator.Continued.{continue_run-Does, either-Does}
use goal_router.Approvals
use goal_router.Domain.ApprovalRecord.{ApprovalRecord}
use goal_router.Application.Adoption.{
  adopt_current_configuration-IsAdopted, adopt_current_configuration-objective,
}

-- A state of the run, with its work items stored under their identifiers.
abbrev pub IsFormed : {P : Platform} → String → RunState P → Type 0
IsFormed run state = IsWellFormed state.work_items × (state.objective.id ≡ run)

-- The store gives back the run that is asked for, with its work items stored under their identifiers.
abbrev pub IsStored : {P : Platform} → Ports P → Type 0
IsStored ports =
    (run : String) (log : Log _) (state : RunState _)
    → ports.load (Effect.load run ∷ log) ≡ ok state
    → IsFormed run state

module _ {P : Platform} (parts : Parts P) (ports : Ports P) (run : String) where
  check_digest-same :
      (expected : Option String) (acknowledge : Bool) (state next : RunState P)
      → check_digest expected acknowledge state ≡ ok next
      → state ≡ next
  unfolding check_digest
  check_digest-same none acknowledge state next h = ok-injective h
  check_digest-same (some digest) acknowledge state next h =
      elim (Bool-cases (not (state.configuration_digest == digest) && not acknowledge)) [
        | inl e ↦ let h' : err resume_configuration_changed_error ≡ ok next = rw e at h in cc
        | inr e ↦ let h' : ok state ≡ ok next = rw e at h in ok-injective h'
      ]

  pub load_run-Does :
      {v : Bool} (stored : IsStored ports) (expected : Option String) (acknowledge : Bool)
      → Does parts ports run v (load_run parts ports run expected acknowledge) v (IsFormed run)
  unfolding load_run is_held is_validated
  load_run-Does stored expected acknowledge =
      Does->>= parts ports run _ _
        (Does-perform parts ports run {Q = IsFormed run} (Effect.load run) ports.load
          (λ l. (refl, refl)) (λ l i. tt) (λ state l h. stored run l state h))
        (λ state formed.
          Does-lift parts ports run (check_digest expected acknowledge state) (λ next h.
            subst (IsFormed run) (check_digest-same expected acknowledge state next h) formed))

  approved_state-ok :
      {A : Type 0} (r : Result (A × RunState P)) (next : RunState P)
      → approved_state parts ports r ≡ ok next
      → (a : A) × (r ≡ ok (a, next))
  approved_state-ok (err e) next h = cc
  approved_state-ok (ok (a, state)) next h = (a, ap (λ s. ok (a, s)) (ok-injective h))

  approve-same :
      (state next : RunState P) (id by : String) (now : P.Datetime) (r : ApprovalRecord P)
      → Approvals.approve parts.digest state id by now ≡ ok (r, next)
      → (next.work_items ≡ state.work_items) × (next.objective ≡ state.objective)
  unfolding Approvals.approve
  approve-same state next id by now r h =
      let (_, _, h1) = >>=-eq-ok (guard (P.is_aware now) approval_required_error) _ h in
      let (_, _, h2) = >>=-eq-ok (guard (not (P.strip by == "")) approval_required_error) _ h1 in
      let (_, _, h3) = >>=-eq-ok (Approvals.require_item_and_route state id) _ h2 in
      let (_, _, h4) = >>=-eq-ok (Approvals.fingerprint parts.digest state id) _ h3 in
      (
        ap (λ (x : ApprovalRecord P × RunState P). x.1.work_items) (sym (ok-injective h4)),
        ap (λ (x : ApprovalRecord P × RunState P). x.1.objective) (sym (ok-injective h4)),
      )

  approve_step-Does :
      {v : Bool} (state : RunState P) (id by : String)
      → IsFormed run state
      → Does parts ports run v
          (λ log.
            lift
              (approved_state parts ports
                (Approvals.approve parts.digest state id by (ports.now log)))
              log)
          v
          (IsFormed run)
  approve_step-Does state id by formed = record {
    leaves = λ log inside.
        let r = Approvals.approve parts.digest state id by (ports.now log) in
        (Does-lift parts ports run {Q = IsFormed run} (approved_state parts ports r) (λ next h.
            let (a, e) = approved_state-ok r next h in
            let (items, objective) = approve-same state next id by (ports.now log) a e in
            (subst IsWellFormed (sym items) formed.0, ap (λ o. o.id) objective ∙ formed.1))).leaves
          log inside;
  }

  -- the end of a change of a stored state
  saved-Does :
      {v : Bool} (state : RunState P) (name : String) (item : Option String)
      (details : Dict (JsonValue P)) {n : Action P (RunState P)} {Q : RunState P → Type 0}
      → IsFormed run state
      → Does parts ports run v n v Q
      → Does parts ports run v
          (perform (Effect.save state) ports.save
            >> (event parts ports state name item details >> n))
          v
          Q
  saved-Does state name item details formed does =
      Does->>= parts ports run _ _ (save-Does parts ports run state formed.1 formed.0) (λ _ _.
        Does->>= parts ports run _ _ (event-Does parts ports run state name item details formed.1)
          (λ _ _. does))

  adopt-Does :
      {v : Bool} (state : RunState P)
      → IsFormed run state
      → Does parts ports run v (adopt parts ports state) v (IsReady parts run)
  unfolding adopt
  adopt-Does state formed =
      Does->>= parts ports run {Q = IsReady parts run} _ _
        (Does-lift parts ports run (adopt_current_configuration parts.config state) (λ next h.
          let adopted =
            adopt_current_configuration-IsAdopted parts.config state next h formed.0.distinct in
          record {
            id =
                ap (λ o. o.id) (adopt_current_configuration-objective parts.config state next h)
                ∙ formed.1;
            formed = subst IsWellFormed (sym adopted.2) formed.0;
            current = adopted.1;
          }))
        (λ adopted ready.
          saved-Does adopted "configuration-change-acknowledged" none [] (ready.formed, ready.id)
            (Does-pure parts ports run adopted ready))

  ensure_current-Does :
      {v : Bool} (state : RunState P)
      → IsFormed run state
      → Does parts ports run v (ensure_current parts ports state) v (IsReady parts run)
  unfolding ensure_current
  ensure_current-Does state formed =
      either-Does parts ports run (state.configuration_digest == parts.config.digest) _ _
        (λ same.
          Does-pure parts ports run state
            (record { id = formed.1; formed = formed.0; current = (eq_iff _ _).0 same }))
        (λ _. adopt-Does state formed)

  pub resume_unlocked-Does :
      (stored : IsStored ports) (acknowledge : Bool)
      → Does parts ports run false
          (resume_unlocked parts ports run acknowledge)
          true
          (IsReady parts run)
  unfolding resume_unlocked
  resume_unlocked-Does stored acknowledge =
      Does->>= parts ports run _ _ (load_run-Does stored (some parts.config.digest) acknowledge)
        (λ state formed.
          Does->>= parts ports run _ _ (ensure_current-Does state formed) (λ current ready.
            Does->>= parts ports run _ _ (validate_model_inventory-Does parts ports run) (λ _ _.
              Does-map parts ports run (continue_run parts ports current) (λ final done. done.0)
                (continue_run-Does parts ports run current ready))))

  pub approve_unlocked-Does :
      (stored : IsStored ports) (item_id by : String)
      → Does parts ports run false
          (approve_unlocked parts ports run item_id by)
          false
          (IsFormed run)
  unfolding approve_unlocked
  approve_unlocked-Does stored item_id by =
      Does->>= parts ports run _ _ (load_run-Does stored (some parts.config.digest) false)
        (λ state formed.
          Does->>= parts ports run _ _ (approve_step-Does state item_id by formed)
            (λ approved formed'.
              saved-Does approved "approval-recorded" (some item_id) (("approved_by", str by) ∷ [])
                formed' (reported-Does parts ports run approved (IsFormed run) formed'.1 formed')))

  pub report_unlocked-Does :
      (stored : IsStored ports)
      → Does parts ports run false (report_unlocked parts ports run) false Anything
  unfolding report_unlocked
  report_unlocked-Does stored =
      Does->>= parts ports run _ _ (load_run-Does stored none false)
        (λ state formed. write_report-Does parts ports run state formed.1)
