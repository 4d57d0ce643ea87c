-- ===== src/Planner/Outcome.antt =====
-- planner.py: the result and the calls of `StructuredPlanner.plan`.
use goal_router.Common.{
  ◌≤◌, String, Bool, Option, none, some, List, ◌≡◌, arith, length, Bool-cases, Option-cases, inl,
  inr,
}
use goal_router.Common.Dict.{Dict}
use goal_router.Errors.{Result, ok, err, >>=-eq-ok}
use goal_router.Domain.Platform.{Platform}
use goal_router.Domain.Json.{JsonValue}
use goal_router.Domain.FilePath.{FilePath}
use goal_router.Domain.Objective.{Objective}
use goal_router.Domain.RouteDecision.{RouteDecision}
use goal_router.Domain.WorkItem.{WorkItem}
use goal_router.Config.{RouterConfig}
use goal_router.Routing.{route}
use goal_router.Planner.Fields.{mapping}
use goal_router.Planner.Accepted.{IsPlan, parse_semantic_work_items-IsPlan}
use goal_router.Planner.Planning.{
  Turn, Call, planner_work_item, validate_loaded, parse_and_validate, is_structural, correct,
  handle, respond, after_route, plan,
}

module _ {P : Platform} (resolve : FilePath → FilePath) (loads : String → Option (JsonValue P))
    (accepts : Dict (JsonValue P) → Bool) (objective : Objective P) (config : RouterConfig) where
  loaded_IsPlan :
      (loaded : Option (JsonValue P)) (items : List (WorkItem P))
      → validate_loaded resolve loads accepts objective config loaded ≡ ok items
      → IsPlan config items
  unfolding validate_loaded
  loaded_IsPlan none items h = absurd (ground arith)
  loaded_IsPlan (some value) items h =
      let (raw, _, checked) = >>=-eq-ok (mapping value) _ h in
      elim (Bool-cases (accepts raw)) [
        | inl holds ↦
            parse_semantic_work_items-IsPlan resolve objective config raw items
              (rw holds at checked)
        | inr fails ↦ absurd (ground arith)
      ]

  parse_and_validate-IsPlan :
      (content : Option String) (items : List (WorkItem P))
      → parse_and_validate resolve loads accepts objective config content ≡ ok items
      → IsPlan config items
  unfolding parse_and_validate validate_loaded
  parse_and_validate-IsPlan none items h = absurd (ground arith)
  parse_and_validate-IsPlan (some content) items h = loaded_IsPlan (loads content) items h

  module _ (run : Call → Result Turn) where
    correct-IsPlan :
        (route : RouteDecision) (thread : Option String) (items : List (WorkItem P))
        → (correct resolve loads accepts objective config run route thread).0 ≡ ok items
        → IsPlan config items
    unfolding correct
    correct-IsPlan route none items h = absurd (ground arith)
    correct-IsPlan route (some thread) items h =
        let (turn, _, parsed) = >>=-eq-ok (run (Call.resume_thread thread route)) _ h in
        parse_and_validate-IsPlan turn.final_response items parsed

    handle-IsPlan :
        (route : RouteDecision) (turn : Turn) (first : Result (List (WorkItem P)))
        (items : List (WorkItem P))
        → ((found : List (WorkItem P)) → first ≡ ok found → IsPlan config found)
        → (handle resolve loads accepts objective config run route turn first).0 ≡ ok items
        → IsPlan config items
    unfolding handle
    handle-IsPlan route turn (ok found) items good h = good items h
    handle-IsPlan route turn (err e) items good h = elim (Bool-cases (is_structural e)) [
      | inl holds ↦ correct-IsPlan route turn.thread_id items (rw holds at h)
      | inr fails ↦ absurd (ground arith)
    ]

    respond-IsPlan :
        (route : RouteDecision) (turn : Result Turn) (items : List (WorkItem P))
        → (respond resolve loads accepts objective config run route turn).0 ≡ ok items
        → IsPlan config items
    unfolding respond
    respond-IsPlan route (err e) items h = absurd (ground arith)
    respond-IsPlan route (ok turn) items h =
        handle-IsPlan route turn
          (parse_and_validate resolve loads accepts objective config turn.final_response) items
          (λ found e. parse_and_validate-IsPlan turn.final_response found e) h

    after_route-IsPlan :
        (decision : Result RouteDecision) (items : List (WorkItem P))
        → (after_route resolve loads accepts objective config run decision).0 ≡ ok items
        → IsPlan config items
    unfolding after_route
    after_route-IsPlan (err e) items h = absurd (ground arith)
    after_route-IsPlan (ok decision) items h =
        respond-IsPlan decision (run (Call.run_new_thread decision)) items h

    -- What `plan` returns, from the first response or from the correction, is a plan: distinct ids,
    -- configured tasks, verification for each writer, dependencies inside the plan and no cycle.
    pub plan-IsPlan :
        (items : List (WorkItem P))
        → (plan resolve loads accepts objective config run).0 ≡ ok items
        → IsPlan config items
    unfolding plan
    plan-IsPlan items h =
        after_route-IsPlan (route config (planner_work_item objective config) none) items h

    handle-calls :
        (route : RouteDecision) (turn : Turn) (first : Result (List (WorkItem P)))
        → length (handle resolve loads accepts objective config run route turn first).1 ≤ 1
    unfolding handle correct
    handle-calls route turn (ok found) = omega arith
    handle-calls route turn (err e) = elim (Bool-cases (is_structural e)) [
      | inl holds ↦ elim (Option-cases turn.thread_id) [
        | inl lost ↦ rw (holds, lost) (omega arith)
        | inr (thread, e') ↦ rw (holds, e') (omega arith)
      ]
      | inr fails ↦ rw fails (omega arith)
    ]

    respond-calls :
        (route : RouteDecision) (turn : Result Turn)
        → length (respond resolve loads accepts objective config run route turn).1 ≤ 2
    unfolding respond
    respond-calls route (err e) = omega arith
    respond-calls route (ok turn) =
        let h =
          handle-calls route turn
            (parse_and_validate resolve loads accepts objective config turn.final_response) in
        omega arith

    after_route-calls :
        (decision : Result RouteDecision)
        → length (after_route resolve loads accepts objective config run decision).1 ≤ 2
    unfolding after_route
    after_route-calls (err e) = omega arith
    after_route-calls (ok decision) = respond-calls decision (run (Call.run_new_thread decision))

    -- Whatever the client answers, the planner makes two calls at most.
    pub plan-calls : length (plan resolve loads accepts objective config run).1 ≤ 2
    unfolding plan
    plan-calls = after_route-calls (route config (planner_work_item objective config) none)
