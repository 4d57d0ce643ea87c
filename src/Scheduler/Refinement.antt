-- ===== src/Scheduler/Refinement.antt =====
-- scheduler.py: the parts of `run_ready`, each as a sequence of the steps of Scheduler/Steps.
pub mod Batches
pub mod Rounds
pub mod Safety
use mathlib.Core.Path.{subst}
use goal_router.Common.{
  ℕ, ◌+◌, String, Bool, true, false, ◌&&◌, Option, none, some, List, [], ◌∷◌, ◌≡◌, refl, sym, ap,
  ◌∙◌, ◌⊎◌, inl, inr, arith, All, ◌==◌, Bool-cases, if◌then◌else◌, eq_iff,
}
use goal_router.Common.Dict
use goal_router.Common.Dict.{get-put}
use goal_router.Common.Strings.{contains}
use goal_router.Common.Distinct.{IsDistinct, labels}
use goal_router.Errors.{Error, Result, ok, err, ok-injective}
use goal_router.Domain.Platform.{Platform}
use goal_router.Domain.Json.{JsonValue}
use goal_router.Domain.Enums.{RunStatus}
use goal_router.Domain.Objective.{Objective}
use goal_router.Domain.WorkItem.{WorkItem}
use goal_router.Domain.WorkResult.{WorkResult}
use goal_router.Domain.RunState.{RunState, RunEvent, run_id}
use goal_router.Approvals.{require_dispatchable}
use goal_router.Scheduler.{may_dispatch, normalize, with_lease, run_writer}
use goal_router.Scheduler.Effects.{
  Effect, Environment, World, Action, Request, Outcome, ◌>>=◌, ◌>>◌, continue,
}
use goal_router.Scheduler.Status.{is_pending, is_ready, is_write, is_pre_writer, failure_result}
use goal_router.Scheduler.Dispatch.{
  save, append_event, persist_result, persist_all, run_one, answer_one, settle, dispatch_request,
}
use goal_router.Scheduler.Lease.{Result-cases, run_writer-cases, before, asked, leased, returned}
use goal_router.Scheduler.Ready.{IsCleared, IsCleared-of}
use goal_router.Scheduler.Steps.{
  Step, Reach, Reach-trans, set, do_effect, note, here, next, is_leased, Allowed,
}
use goal_router.Scheduler.Steps.Safety.{Reach-Keeps}

module _ {P : Platform} where
  abbrev pub result_id : WorkResult P → String
  result_id r = r.work_item_id

  -- The state with one more result, and with another status.
  abbrev pub with_result : RunState P → WorkResult P → RunState P
  with_result s r = record s { results = Dict.put s.results r.work_item_id r }

  abbrev pub with_status : RunState P → RunStatus → RunState P
  with_status s x = record s { status = x }

  abbrev pub ArePending : RunState P → List String → Type 0
  ArePending s ids = All (λ id. is_pending s id ≡ true) ids

  is_pending-with_result :
      (s : RunState P) (r : WorkResult P) (id : String)
      → (r.work_item_id == id) ≡ false
      → is_pending (with_result s r) id ≡ is_pending s id
  unfolding is_pending
  is_pending-with_result s r id differ = ground (arith, get-put s.results r.work_item_id id r)

  ArePending-with_result :
      (s : RunState P) (r : WorkResult P) (ids : List String)
      → contains ids r.work_item_id ≡ false
      → ArePending s ids
      → ArePending (with_result s r) ids
  unfolding contains
  ArePending-with_result s r [] apart h = tt
  ArePending-with_result s r (id ∷ ids) apart (p, h) = (
    is_pending-with_result s r id
          (ground (arith, eq_iff r.work_item_id id, eq_iff id r.work_item_id))
        ∙ p,
    ArePending-with_result s r ids (ground arith) h,
  )

module _ {P : Platform} (digest : JsonValue P → String) where
  -- The item may be dispatched in this state.
  abbrev pub IsReady : RunState P → WorkItem P → Type 0
  IsReady s item =
      (is_pending s item.id ≡ true) × ((is_ready s item && may_dispatch digest s item) ≡ true)

  pub IsReady-with_status :
      (s : RunState P) (x : RunStatus) (item : WorkItem P)
      → IsReady s item
      → IsReady (with_status s x) item
  unfolding is_pending is_ready may_dispatch require_dispatchable
  IsReady-with_status s x item h = h

module _ {P : Platform} (env : Environment P) (digest : JsonValue P → String) where
  module _ {A B : Type 0} where
    continue-Reach :
        (r : Result A) (f : A → Action P B) (w u : World P)
        → Reach env digest w u
        → ((a : A) → r ≡ ok a → Reach env digest u (f a u).1)
        → Reach env digest w (continue r f u).1
    continue-Reach (ok a) f w u q step = Reach-trans env digest q (step a refl)
    continue-Reach (err e) f w u q step = q

    pub bind-Reach :
        (m : Action P A) (f : A → Action P B) (w : World P)
        → Reach env digest w (m w).1
        → ((a : A) → (m w).0 ≡ ok a → Reach env digest (m w).1 (f a (m w).1).1)
        → Reach env digest w ((m >>= f) w).1
    bind-Reach m f w q step = continue-Reach (m w).0 f w (m w).1 q step

  pub save-Reach : (w : World P) → Reach env digest w (save env w).1
  unfolding save
  save-Reach w = next here (do_effect (Effect.save w.state) refl refl)

  append_event-Reach :
      (event : RunEvent P) (w : World P) → Reach env digest w (append_event env event w).1
  unfolding append_event
  append_event-Reach event w =
      next here (do_effect (Effect.append_event (run_id w.state) event) refl refl)

  -- The result stands in the state whether or not the store accepts it.
  pub persist_result-state :
      (r : WorkResult P) (w : World P) → (persist_result env r w).1.state ≡ with_result w.state r
  unfolding persist_result save append_event
  persist_result-state r w =
      elim (Result-cases (env.save (Effect.save (with_result w.state r) ∷ w.log))) [
        | inl (e, h) ↦ rw h refl
        | inr (a, h) ↦ rw h refl
      ]

  pub persist_result-Reach :
      (r : WorkResult P) (w : World P)
      → is_pending w.state r.work_item_id ≡ true
      → Reach env digest w (persist_result env r w).1
  unfolding persist_result
  persist_result-Reach r w p =
      let noted = record w { state = with_result w.state r } in
      Reach-trans env digest (next here (note r p refl))
        (bind-Reach (save env) _ noted (save-Reach noted) (λ a e. append_event-Reach _ _))

  pub persist_all-Reach :
      (rs : List (WorkResult P)) (w : World P)
      → IsDistinct (labels result_id rs)
      → ArePending w.state (labels result_id rs)
      → Reach env digest w (persist_all env rs w).1
  unfolding persist_all
  persist_all-Reach [] w d p = here
  persist_all-Reach (r ∷ rs) w (apart, d) (p, ps) =
      bind-Reach (persist_result env r) (λ _. persist_all env rs) w (persist_result-Reach r w p)
        (λ a e. persist_all-Reach rs (persist_result env r w).1 d (
          subst (λ s. ArePending s (labels result_id rs)) (sym (persist_result-state r w))
            (ArePending-with_result w.state r (labels result_id rs) apart ps)))

  -- One call, for an item that is ready and that has the lease if it writes.
  may_call :
      (item : WorkItem P) (w : World P) (request : Request)
      → IsReady digest w.state item
      → (is_write item.access ≡ true → is_leased env digest w.log ≡ true)
      → dispatch_request w.state item ≡ ok request
      → Allowed env digest w (Effect.call w.state item request)
  may_call item w request (p, h) lease e = (refl, (IsCleared-of digest w.state item h, p, e, lease))

  run_one-Reach :
      (item : WorkItem P) (w : World P)
      → IsReady digest w.state item
      → (is_write item.access ≡ true → is_leased env digest w.log ≡ true)
      → Reach env digest w (run_one env item w).1
  unfolding run_one answer_one
  run_one-Reach item w h lease = elim (Result-cases (dispatch_request w.state item)) [
    | inl (e, k) ↦ rw k here
    | inr (request, k) ↦ rw k (
        next here
          (do_effect (Effect.call w.state item request) (may_call item w request h lease k) refl))
  ]

  settle-id :
      (item : WorkItem P) (o : Outcome P) (r : WorkResult P)
      → settle env item o ≡ ok r
      → r.work_item_id ≡ item.id
  unfolding settle failure_result
  settle-id item (Outcome.returned x) r h = ap result_id (sym (ok-injective h))
  settle-id item (Outcome.raised text) r h = ap result_id (sym (ok-injective h))
  settle-id item Outcome.cancelled r h = cc

  answer_one-state :
      (item : WorkItem P) (request : Result Request) (w : World P) (r : WorkResult P)
      → (answer_one env item request w).0 ≡ ok r
      → ((answer_one env item request w).1.state ≡ w.state) × (r.work_item_id ≡ item.id)
  unfolding answer_one failure_result
  answer_one-state item (err e) w r h = (refl, ap result_id (sym (ok-injective h)))
  answer_one-state item (ok request) w r h = (refl, settle-id item _ r h)

  run_one-state :
      (item : WorkItem P) (w : World P) (r : WorkResult P)
      → (run_one env item w).0 ≡ ok r
      → ((run_one env item w).1.state ≡ w.state) × (r.work_item_id ≡ item.id)
  unfolding run_one
  run_one-state item w r h = answer_one-state item (dispatch_request w.state item) w r h

  with_lease-Reach :
      (item : WorkItem P) (w : World P)
      → IsReady digest w.state item
      → is_leased env digest w.log ≡ true
      → Reach env digest w (with_lease env digest item w).1
  unfolding with_lease
  with_lease-Reach item w h lease =
      elim (Result-cases (require_dispatchable digest w.state item.id)) [
        | inl (e, k) ↦ rw k here
        | inr (u, k) ↦
            let running = record w { state = with_status w.state RunStatus.running } in
            let ready = IsReady-with_status digest w.state RunStatus.running item h in
            rw k (
              Reach-trans env digest (next here (set RunStatus.running refl)) (
                bind-Reach (run_one env item) (persist_result env) running
                  (run_one-Reach item running ready (λ _. lease))
                  (λ r e.
                    let (same, name) = run_one-state item running r e in
                    persist_result-Reach r (run_one env item running).1 (rw (same, name) ready.0))))
      ]

  normalize-state :
      (w : World P) → (x : RunStatus) × ((normalize env digest w).1.state ≡ with_status w.state x)
  unfolding normalize save
  normalize-state w = elim (Bool-cases (is_pre_writer w.state.status)) [
    | inl e ↦ (RunStatus.planned, rw e refl)
    | inr e ↦ (w.state.status, rw e refl)
  ]

  normalize-Reach : (w : World P) → Reach env digest w (normalize env digest w).1
  unfolding normalize
  normalize-Reach w = elim (Bool-cases (is_pre_writer w.state.status)) [
    | inl e ↦ rw e (
        Reach-trans env digest (next here (set RunStatus.planned refl))
          (save-Reach (record w { state = with_status w.state RunStatus.planned })))
    | inr e ↦ rw e here
  ]

  asked-Reach : (item : WorkItem P) (w : World P) → Reach env digest w (asked env digest item w)
  asked-Reach item w =
      next (normalize-Reach w) (
        do_effect (Effect.acquire (before env digest item w).state.objective.project_path) refl
          refl)

  returned-Reach :
      (item : WorkItem P) (w : World P)
      → IsReady digest w.state item
      → env.acquire (asked env digest item w).log ≡ ok tt
      → Reach env digest w (returned env digest item w)
  unfolding is_leased
  returned-Reach item w h given =
      let start = asked env digest item w in
      let (x, same) = normalize-state w in
      let ready : IsReady digest start.state item =
        subst (λ s. IsReady digest s item) (sym same)
          (IsReady-with_status digest w.state x item h) in
      let run = with_lease-Reach item start ready (rw given refl) in
      next (Reach-trans env digest (asked-Reach item w) run) (
        do_effect (Effect.release (before env digest item w).state.objective.project_path)
          (ap (λ (o : Objective P). o.project_path) (sym (Reach-Keeps env digest run).objective))
          refl)

  pub run_writer-Reach :
      (item : WorkItem P) (w : World P)
      → IsReady digest w.state item
      → Reach env digest w (run_writer env digest item w).1
  run_writer-Reach item w h = elim (run_writer-cases env digest item w) [
    | inl (e, _, k) ↦ rw k (normalize-Reach w)
    | inr (inl (e, _, k)) ↦ rw k (asked-Reach item w)
    | inr (inr (given, k, _)) ↦ rw k (returned-Reach item w h given)
  ]
