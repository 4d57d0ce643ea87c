-- ===== src/Application/Coordinator/Continued.antt =====
-- application.py: `_continue` and the use cases of a loaded run, with their order of effects.
use goal_router.Scheduler.Pending.{IsWellFormed}
use goal_router.Common.{
  Bool, true, false, none, [], ◌≡◌, refl, ◌∙◌, inl, inr, if◌then◌else◌, String,
}
use goal_router.Common.Dict
use goal_router.Common.Dict.{Dict}
use goal_router.Errors.{Result, ok, err}
use goal_router.Domain.Platform.{Platform}
use goal_router.Domain.RunState.{RunState}
use goal_router.Routing.{route}
use goal_router.Application.{completion_id, completion_item}
use goal_router.Application.Ports.{Effect, Log, Ports, Action, pure, perform, ◌>>◌}
use goal_router.Application.Operations.{Parts, event, run_scheduler}
use goal_router.Application.Coordinator.{
  append_review, ensure_review, run_review, review, wants_review, continue_run, reviewed_state,
}
use goal_router.Application.Coordinator.WorkItems.{put-IsWellFormed}
use goal_router.Application.Coordinator.Guard.{Does, After, Does->>=, Does-pure}
use goal_router.Application.Coordinator.Stages.{HasRun, IsReady, event-Does}
use goal_router.Application.Coordinator.Guarded.{
  save-Does, reported-Does, scheduled-Does, HasRunReady, known-Does,
}
use goal_router.Application.Coordinator.Review.{Advances, review-AppendsReview, HasRun-refl}

module _ {P : Platform} (parts : Parts P) (ports : Ports P) (run : String) where
  -- the end of `append_review`, from the reviewed state on
  appended-Does :
      (reviewed : RunState P) (Q : RunState P → Type 0)
      → reviewed.objective.id ≡ run
      → IsWellFormed reviewed.work_items
      → Q reviewed
      → Does parts ports run true
          (perform (Effect.save reviewed) ports.save
            >> (event parts ports reviewed "completion-review-appended" none [] >> pure reviewed))
          true
          Q
  appended-Does reviewed Q own formed q =
      Does->>= parts ports run _ _ (save-Does parts ports run reviewed own formed) (λ _ _.
        Does->>= parts ports run _ _
          (event-Does parts ports run reviewed "completion-review-appended" none [] own)
          (λ _ _. Does-pure parts ports run reviewed q))

  -- A state that may be run, and after a run of which no more than the review was added.
  abbrev MayProgress : RunState P → RunState P → Type 0
  MayProgress before state =
      IsReady parts run state
      × ((after : RunState P) → HasRun state after → Advances parts before after)

  append_review-Does :
      (before ran : RunState P)
      → HasRunReady parts ports run before ran
      → wants_review parts ports ran ≡ true
      → Dict.has ran.work_items completion_id ≡ false
      → Does parts ports run true (append_review parts ports ran) true (MayProgress before)
  unfolding append_review
  append_review-Does before ran (ready, first) wanted absent =
      Does->>= parts ports run _ _
        (known-Does parts ports run (completion_item ran parts.config.completion_task))
        (λ completion made.
          Does->>= parts ports run _ _
            (known-Does parts ports run (route parts.config completion none))
            (λ decision routed.
              appended-Does (reviewed_state parts ports ran completion decision)
                (MayProgress before) ready.id
                (put-IsWellFormed ran.work_items completion ready.formed)
                (
                  record {
                    id = ready.id;
                    formed = put-IsWellFormed ran.work_items completion ready.formed;
                    current = ready.current;
                  },
                  λ after last. (
                    last.objective ∙ first.objective,
                    last.approvals ∙ first.approvals,
                    inr (
                        review-AppendsReview parts ports before ran after completion decision first
                          wanted absent made routed last),
                  ),
                )))

  -- either branch, with the outcome of the test
  pub either-Does :
      {A : Type 0} {u v : Bool} {Q : A → Type 0} (test : Bool) (m n : Action P A)
      → (test ≡ true → Does parts ports run u m v Q)
      → (test ≡ false → Does parts ports run u n v Q)
      → Does parts ports run u (if test then m else n) v Q
  either-Does true m n h k = h refl
  either-Does false m n h k = k refl

  ran-Advances :
      (before ran after : RunState P)
      → HasRun before ran
      → HasRun ran after
      → Advances parts before after
  ran-Advances before ran after first last = (
    last.objective ∙ first.objective,
    last.approvals ∙ first.approvals,
    inl (last.work_items ∙ first.work_items, last.routes ∙ first.routes),
  )

  -- What a use case of a run leaves: a state of the same objective and approvals, with no more
  -- work than before, or than that and the review.
  abbrev pub HasProgressed : RunState P → RunState P → Type 0
  HasProgressed before after = IsReady parts run after × Advances parts before after

  rerun :
      (before state : RunState P) (o : Result (RunState P) × Log P)
      → ((after : RunState P) → HasRun state after → Advances parts before after)
      → After parts ports run true (HasRunReady parts ports run state) o
      → After parts ports run true (HasProgressed before) o
  rerun before state (ok s, log) next ((ready, last), inside) = ((ready, next s last), inside)
  rerun before state (err e, log) next inside = inside

  rerun-Does :
      (before state : RunState P)
      → MayProgress before state
      → Does parts ports run true (run_scheduler parts ports state) true (HasProgressed before)
  rerun-Does before state (ready, next) = record {
    leaves = λ log inside.
        rerun before state (run_scheduler parts ports state log) next
          ((scheduled-Does parts ports run state ready).leaves log inside);
  }

  review-Does :
      (before ran : RunState P)
      → HasRunReady parts ports run before ran
      → wants_review parts ports ran ≡ true
      → Does parts ports run true (review parts ports ran) true (HasProgressed before)
  unfolding review ensure_review run_review
  review-Does before ran (ready, first) wanted =
      Does->>= parts ports run {Q = MayProgress before} _ _
        (either-Does (Dict.has ran.work_items completion_id) _ _
          (λ _. Does-pure parts ports run ran (ready, λ after. ran-Advances before ran after first))
          (λ absent. append_review-Does before ran (ready, first) wanted absent))
        (λ reviewed next.
          either-Does (Dict.has reviewed.results completion_id) _ _
            (λ _.
              Does-pure parts ports run reviewed
                (next.0, next.1 reviewed (HasRun-refl parts ports reviewed)))
            (λ _. rerun-Does before reviewed next))

  pub continue_run-Does :
      (state : RunState P)
      → IsReady parts run state
      → Does parts ports run true (continue_run parts ports state) true (HasProgressed state)
  unfolding continue_run
  continue_run-Does state ready =
      Does->>= parts ports run _ _ (scheduled-Does parts ports run state ready) (λ ran first.
        Does->>= parts ports run {Q = HasProgressed state} _ _
          (either-Does (wants_review parts ports ran) _ _
            (λ wanted. review-Does state ran first wanted)
            (λ _. Does-pure parts ports run ran (
              first.0,
              (first.1.objective, first.1.approvals, inl (first.1.work_items, first.1.routes)),
            )))
          (λ final done. reported-Does parts ports run final (HasProgressed state) done.0.id done))
