-- ===== src/Scheduler/Steps.antt =====
-- scheduler.py: what the scheduler may do, as a relation between worlds. One step changes the status
-- of the run, does an effect that is no call, calls the client for an item, or records a result.
pub mod Safety
use goal_router.Common.{String, Bool, true, false, Option, none, some, List, [], ◌∷◌, ◌≡◌}
use goal_router.Common.Dict
use goal_router.Common.Dict.{keys}
use goal_router.Domain.Platform.{Platform}
use goal_router.Domain.Json.{JsonValue}
use goal_router.Domain.Enums.{RunStatus}
use goal_router.Domain.WorkItem.{WorkItem}
use goal_router.Domain.WorkResult.{WorkResult}
use goal_router.Domain.RunState.{RunState}
use goal_router.Errors.{ok}
use goal_router.Scheduler.{passed}
use goal_router.Scheduler.Effects.{
  Effect, Environment, History, World, Request, save, append_event, acquire, release, call,
}
use goal_router.Scheduler.Status.{is_pending, is_write}
use goal_router.Scheduler.Dispatch.{dispatch_request}
use goal_router.Scheduler.Ready.{IsCleared}

module _ {P : Platform} (env : Environment P) (digest : JsonValue P → String) where
  -- The latest lease that was asked for was given, and was not given back.
  unfoldable pub is_leased : History P → Bool
  is_leased [] = false
  is_leased (save s ∷ log) = is_leased log
  is_leased (append_event id e ∷ log) = is_leased log
  is_leased (acquire path ∷ log) = passed (env.acquire (acquire path ∷ log))
  is_leased (release path ∷ log) = false
  is_leased (call s item request ∷ log) = is_leased log

  -- What holds when the client is called for the item in this state after these effects.
  abbrev pub MayCall : RunState P → WorkItem P → Request → History P → Type 0
  MayCall state item request log =
      IsCleared digest state item
      × (is_pending state item.id ≡ true)
      × (dispatch_request state item ≡ ok request)
      × (is_write item.access ≡ true → is_leased log ≡ true)

  -- What holds of an effect in the world where it is done.
  abbrev pub Allowed : World P → Effect P → Type 0
  Allowed w (save s) = s ≡ w.state
  Allowed w (append_event id e) = id ≡ w.state.objective.id
  Allowed w (acquire path) = path ≡ w.state.objective.project_path
  Allowed w (release path) = path ≡ w.state.objective.project_path
  Allowed w (call s item request) = (s ≡ w.state) × MayCall s item request w.log

  pub data Step (w : World P) (u : World P) : Type 0 where
    set : (s : RunStatus) → u ≡ record w { state = record w.state { status = s } } → Step w u
    do_effect : (e : Effect P) → Allowed w e → u ≡ record w { log = e ∷ w.log } → Step w u
    -- A result is recorded only over none, or over one that can be resumed.
    note :
        (r : WorkResult P)
        → is_pending w.state r.work_item_id ≡ true
        → u ≡ record w {
          state = record w.state { results = Dict.put w.state.results r.work_item_id r };
        }
        → Step w u

  pub data Reach (w : World P) : World P → Type 0 where
    here : Reach w w
    next : {u v : World P} → Reach w u → Step u v → Reach w v

  pub Reach-trans : {w u v : World P} → Reach w u → Reach u v → Reach w v
  Reach-trans r here = r
  Reach-trans r (next q s) = next (Reach-trans r q) s
