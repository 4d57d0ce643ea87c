-- ===== src/Scheduler/Pending.antt =====
-- scheduler.py: the items that one turn of the loop works on. They are pending, and no two have the
-- same identifier, in a state whose work items are stored under their identifiers.
use goal_router.Common.{
  ℕ, String, Bool, true, List, [], ◌∷◌, ◌≡◌, refl, ap, sym, ◌∙◌, All, filter, take, ◌&&◌,
}
use goal_router.Common.Dict.{
  Dict, keys, values, sorted_items, sorted_items-IsDistinct, sorted_items-entries,
}
use goal_router.Common.Distinct.{
  IsDistinct, labels, filter-IsDistinct, take-IsDistinct, filter-All, take-All, All-map,
}
use goal_router.Domain.Platform.{Platform}
use goal_router.Domain.Json.{JsonValue}
use goal_router.Domain.WorkItem.{WorkItem}
use goal_router.Domain.RunState.{RunState}
use goal_router.Scheduler.{dispatchable, may_dispatch}
use goal_router.Scheduler.Status.{is_pending, pending_items, newly_blocked, is_ready}

module _ {P : Platform} where
  abbrev pub item_id : WorkItem P → String
  item_id item = item.id

  -- The work items are stored under their identifiers.
  pub record IsWellFormed (work_items : Dict (WorkItem P)) : Type 0 where
    pub distinct : IsDistinct (keys work_items)
    pub keyed : All (λ (e : String × WorkItem P). e.0 ≡ e.1.id) work_items

  -- A turn's items: pending, with different identifiers, and what else is known of each.
  pub record AreTasks (s : RunState P) (Q : WorkItem P → Type 0) (items : List (WorkItem P))
      : Type 0 where
    pub distinct : IsDistinct (labels item_id items)
    pub tasks : All (λ item. (is_pending s item.id ≡ true) × Q item) items

  labels-keys : (d : Dict (WorkItem P)) → labels (λ (e : String × WorkItem P). e.0) d ≡ keys d
  labels-keys [] = refl
  labels-keys ((k, item) ∷ d) = ap (λ r. k ∷ r) (labels-keys d)

  labels-values :
      (d : Dict (WorkItem P))
      → All (λ (e : String × WorkItem P). e.0 ≡ e.1.id) d
      → labels item_id (values d) ≡ labels (λ (e : String × WorkItem P). e.0) d
  labels-values [] h = refl
  labels-values ((k, item) ∷ d) (e, h) =
      ap (λ (x : String). x ∷ labels item_id (values d)) (sym e)
      ∙ ap (λ r. k ∷ r) (labels-values d h)

  values-All :
      (s : RunState P) (d : Dict (WorkItem P))
      → All (λ (e : String × WorkItem P). (e.0 ≡ e.1.id) × (is_pending s e.0 ≡ true)) d
      → All (λ item. is_pending s item.id ≡ true) (values d)
  values-All s [] h = tt
  values-All s ((k, item) ∷ d) ((e, p), h) = (ap (is_pending s) (sym e) ∙ p, values-All s d h)

  pub pending_items-AreTasks :
      (s : RunState P) → IsWellFormed s.work_items → AreTasks s (λ _. Unit {0}) (pending_items s)
  unfolding pending_items
  pending_items-AreTasks s h =
      let entries = sorted_items s.work_items in
      let is_open = λ (e : String × WorkItem P). is_pending s e.0 in
      let all =
        filter-All (λ (e : String × WorkItem P). e.0 ≡ e.1.id) is_open entries
          (sorted_items-entries (λ (e : String × WorkItem P). e.0 ≡ e.1.id) s.work_items h.keyed) in
      let left = filter is_open entries in
      record {
        distinct =
            rw
              (labels-values left (
                All-map (λ (e : String × WorkItem P). (e.0 ≡ e.1.id) × (is_open e ≡ true))
                  (λ e. e.0 ≡ e.1.id) (λ e p. p.0) left all))
              (filter-IsDistinct (λ (e : String × WorkItem P). e.0) is_open entries
                (rw (labels-keys entries) (sorted_items-IsDistinct s.work_items h.distinct)));
        tasks =
            All-map (λ item. is_pending s item.id ≡ true) _ (λ item p. (p, tt)) (values left)
              (values-All s left all);
      }

  module _ (s : RunState P) (Q : WorkItem P → Type 0) (items : List (WorkItem P))
      (h : AreTasks s Q items) where
    filter-AreTasks :
        (test : WorkItem P → Bool) → AreTasks s (λ i. Q i × (test i ≡ true)) (filter test items)
    filter-AreTasks test = record {
      distinct = filter-IsDistinct item_id test items h.distinct;
      tasks =
          All-map (λ i. ((is_pending s i.id ≡ true) × Q i) × (test i ≡ true)) _
            (λ i p. (p.0.0, (p.0.1, p.1))) (filter test items)
            (filter-All (λ i. (is_pending s i.id ≡ true) × Q i) test items h.tasks);
    }

    pub take-AreTasks : (n : ℕ) → AreTasks s Q (take n items)
    take-AreTasks n = record {
      distinct = take-IsDistinct item_id n items h.distinct;
      tasks = take-All (λ i. (is_pending s i.id ≡ true) × Q i) n items h.tasks;
    }

    pub AreTasks-map :
        (R : WorkItem P → Type 0) → ((i : WorkItem P) → Q i → R i) → AreTasks s R items
    AreTasks-map R f = record {
      distinct = h.distinct;
      tasks =
          All-map (λ i. (is_pending s i.id ≡ true) × Q i) _ (λ i p. (p.0, f i p.1)) items h.tasks;
    }

  module _ (s : RunState P) (h : IsWellFormed s.work_items) where
    pub newly_blocked-AreTasks : AreTasks s (λ _. Unit {0}) (newly_blocked s)
    unfolding newly_blocked
    newly_blocked-AreTasks =
        AreTasks-map s _ _
          (filter-AreTasks s (λ _. Unit {0}) (pending_items s) (pending_items-AreTasks s h) _)
          (λ _. Unit {0}) (λ i q. tt)

    pub dispatchable-AreTasks :
        (digest : JsonValue P → String)
        → AreTasks s (λ i. (is_ready s i && may_dispatch digest s i) ≡ true) (dispatchable digest s)
    unfolding dispatchable
    dispatchable-AreTasks digest =
        AreTasks-map s _ _
          (filter-AreTasks s (λ _. Unit {0}) (pending_items s) (pending_items-AreTasks s h) _)
          (λ i. (is_ready s i && may_dispatch digest s i) ≡ true) (λ i q. q.1)
