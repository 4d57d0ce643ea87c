-- ===== src/Application/Coordinator/Review.antt =====
-- application.py: the completion review that `_continue` appends to a run.
use goal_router.Common.{
  String, true, false, not, ◌&&◌, none, ◌≡◌, refl, sym, ap, ◌∙◌, ◌==◌, ◌⊎◌, inl, inr, Option-cases,
  arith, In, all-In, all, filter,
}
use mathlib.Core.Path.{subst}
use goal_router.Common.Strings.{sort}
use goal_router.Common.Dict
use goal_router.Common.Dict.{keys, get-put}
use goal_router.Errors.{ok, >>=-eq-ok, ok-injective}
use goal_router.Domain.Platform.{Platform}
use goal_router.Domain.Enums.{AccessMode, WorkStatus}
use goal_router.Domain.WorkItem.{WorkItem}
use goal_router.Domain.RouteDecision.{RouteDecision}
use goal_router.Domain.RunState.{RunState}
use goal_router.Routing.{route}
use goal_router.Scheduler.Status.{is_pending, is_succeeded, is_resumable, result_is}
use goal_router.Scheduler.Completion.{is_succeeded-eq}
use goal_router.Application.{
  completion_id, completion_item, summaries, base_ids, base_work_succeeded, is_nonempty,
}
use goal_router.Application.Operations.{Parts}
use goal_router.Application.Coordinator.{reviewed_state, wants_review}
use goal_router.Application.Ports.{Ports}
use goal_router.Application.Coordinator.Stages.{HasRun}

-- The review: read-only, under the configured task, after every item.
pub record IsReview {P : Platform} (parts : Parts P) (before : RunState P) (item : WorkItem P)
    : Type 0 where
  pub id : item.id ≡ completion_id
  pub task : item.task ≡ parts.config.completion_task
  pub access : item.access ≡ AccessMode.read_only
  pub dependencies : item.dependencies ≡ sort (keys before.work_items)

-- The state after the review of an objective whose own work has succeeded was appended.
pub record AppendsReview {P : Platform} (parts : Parts P) (before after : RunState P) : Type 0 where
  pub planned : before.objective.explicit_task ≡ none
  pub absent : Dict.has before.work_items completion_id ≡ false
  pub item : WorkItem P
  pub review : IsReview parts before item
  pub work_items : after.work_items ≡ Dict.put before.work_items completion_id item
  pub routed :
      (decision : RouteDecision) × (route parts.config item none ≡ ok decision)
      × (after.routes ≡ Dict.put before.routes completion_id decision)
  pub nonempty : is_nonempty (base_ids before) ≡ true
  pub succeeded :
      (id : String)
      → In id (base_ids before)
      → result_is is_succeeded (Dict.get after.results id) ≡ true

-- The work items and routes are the same, or the review was added.
abbrev pub Progresses : {P : Platform} → Parts P → RunState P → RunState P → Type 0
Progresses parts before after =
    ((after.work_items ≡ before.work_items) × (after.routes ≡ before.routes))
    ⊎ AppendsReview parts before after

-- More was done on the run: its objective and approvals are the same, and so is its work, or the review
-- was added.
abbrev pub Advances : {P : Platform} → Parts P → RunState P → RunState P → Type 0
Advances parts before after =
    (after.objective ≡ before.objective)
    × (after.approvals ≡ before.approvals)
    × Progresses parts before after

not_resumable : (s : WorkStatus) → is_succeeded s ≡ true → is_resumable s ≡ false
not_resumable s h = rw (is_succeeded-eq s h) refl

module _ {P : Platform} (parts : Parts P) (ports : Ports P) where
  pub HasRun-refl : (state : RunState P) → HasRun state state
  HasRun-refl state = record {
    work_items = refl;
    configuration_digest = refl;
    objective = refl;
    routes = refl;
    approvals = refl;
    results = λ id h. refl;
  }

  -- A review is wanted of an objective whose own work has succeeded.
  wants_review-cases :
      (state : RunState P)
      → wants_review parts ports state ≡ true
      → (state.objective.explicit_task ≡ none)
        × (is_nonempty (base_ids state) ≡ true)
        × ((id : String)
            → In id (base_ids state)
            → result_is is_succeeded (Dict.get state.results id) ≡ true)
  unfolding wants_review base_work_succeeded base_ids
  wants_review-cases state h = elim (Option-cases state.objective.explicit_task) [
    | inl missing ↦
        let both : (is_nonempty (base_ids state)
              && all (λ id. result_is is_succeeded (Dict.get state.results id)) (base_ids state))
            ≡ true =
          rw missing at h in
        (
          missing,
          ground (arith, both),
          λ id m.
              all-In (λ id. result_is is_succeeded (Dict.get state.results id)) id (base_ids state)
                (ground (arith, both)) m,
        )
    | inr (task, found) ↦ let h' : false ≡ true = rw found at h in absurd (ground arith)
  ]

  succeeded-is_pending :
      (state : RunState P) (id : String)
      → result_is is_succeeded (Dict.get state.results id) ≡ true
      → is_pending state id ≡ false
  unfolding is_pending
  succeeded-is_pending state id h = elim (Option-cases (Dict.get state.results id)) [
    | inl missing ↦ absurd (ground (arith, h, ap (result_is is_succeeded) missing))
    | inr (r, found) ↦ rw found (not_resumable r.status (rw found at h))
  ]

  base_ids-eq :
      (before after : RunState P)
      → after.work_items ≡ before.work_items
      → base_ids after ≡ base_ids before
  unfolding base_ids
  base_ids-eq before after same = ap (λ d. filter (λ id. not (id == completion_id)) (keys d)) same

  completion_item-IsReview :
      (state : RunState P) (item : WorkItem P)
      → completion_item state parts.config.completion_task ≡ ok item
      → IsReview parts state item
  unfolding completion_item
  completion_item-IsReview state item h =
      let (lines, _, done) = >>=-eq-ok (summaries state (sort (keys state.results))) _ h in
      subst (IsReview parts state) (ok-injective done)
        (record { id = refl; task = refl; access = refl; dependencies = refl })

  -- The review that is appended after one run of the scheduler and before the next.
  pub review-AppendsReview :
      (before ran after : RunState P) (item : WorkItem P) (decision : RouteDecision)
      → HasRun before ran
      → wants_review parts ports ran ≡ true
      → Dict.has ran.work_items completion_id ≡ false
      → completion_item ran parts.config.completion_task ≡ ok item
      → route parts.config item none ≡ ok decision
      → HasRun (reviewed_state parts ports ran item decision) after
      → AppendsReview parts before after
  review-AppendsReview before ran after item' decision first wanted absent' made routed' last =
      let (planned', nonempty', succeeded') = wants_review-cases ran wanted in
      let review' = completion_item-IsReview ran item' made in
      let same_ids = base_ids-eq before ran first.work_items in
      record {
        planned = sym (ap (λ o. o.explicit_task) first.objective) ∙ planned';
        absent = sym (ap (λ d. Dict.has d completion_id) first.work_items) ∙ absent';
        item = item';
        review = record {
          id = review'.id;
          task = review'.task;
          access = review'.access;
          dependencies = review'.dependencies ∙ ap (λ d. sort (keys d)) first.work_items;
        };
        work_items =
            last.work_items
            ∙ ap (λ d. Dict.put d item'.id item') first.work_items
            ∙ ap (λ k. Dict.put before.work_items k item') review'.id;
        routed = (
          decision,
          routed',
          last.routes
              ∙ ap (λ d. Dict.put d item'.id decision) first.routes
              ∙ ap (λ k. Dict.put before.routes k decision) review'.id,
        );
        nonempty = ap is_nonempty (sym same_ids) ∙ nonempty';
        succeeded = λ id m.
            let h = succeeded' id (subst (In id) (sym same_ids) m) in
            ap (result_is is_succeeded) (
              last.results id
                (succeeded-is_pending (reviewed_state parts ports ran item' decision) id h))
            ∙ h;
      }
