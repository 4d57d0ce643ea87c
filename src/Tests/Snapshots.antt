-- ===== src/Tests/Snapshots.antt =====
-- The files of the store, at a run with a snapshot and an event log.
use goal_router.Common.{String, Option, some, none, [], ◌≡◌, refl, ◌==◌, ◌⊎◌, if◌then◌else◌}
use goal_router.Errors.{Error, ok, err, os_error, cancelled_error}
use goal_router.Domain.Json.{JsonValue}
use goal_router.Domain.RunState.{RunState, RunEvent}
use goal_router.RunIds.{validate_run_id}
use goal_router.Store.Disk.{Disk, Call, Cancellation, Os}
use goal_router.Store.Runs.{
  state_file, report_file, snapshot, event_line, decode_state, save, write_report, append_event,
  load,
}
use goal_router.Store.Calls.{EndsIn, Now}
use goal_router.Store.Snapshots.{start, IsAtomic, writes-AreAtomic}
use goal_router.Store.Loading.{save-load, IsExtended, IsAppended, append_event-extends}
use goal_router.Samples.{platform, approved}

-- Every call succeeds.
abbrev working : Os
working = record {
  answer = λ trace call. ok tt;
  spilled = λ trace. "";
  cancellation = λ trace. Cancellation.not_cancelled;
  random = λ trace. "x";
}

-- `os.replace` fails.
abbrev full : Os
full = record {
  answer = λ trace call. elim call [ Call.replace run source target ↦ err os_error | _ ↦ ok tt ];
  spilled = λ trace. "{";
  cancellation = λ trace. Cancellation.not_cancelled;
  random = λ trace. "x";
}

abbrev disk : Disk
disk = record {
  directory = λ run. run == "run-1";
  text = λ run name.
      if run == "run-1"
      then if name == "state.json"
        then some "old"
        else if name == "events.jsonl"
        then some "first"
        else none
      else none;
}

abbrev dumps : JsonValue platform → String
dumps j = "{}"

abbrev loads : String → Option (JsonValue platform)
loads text = none

abbrev event : RunEvent platform
event = record {
  timestamp = "2025-01-03";
  event = "objective-planned";
  work_item_id = none;
  details = [];
}

writes-AreAtomic_example :
    ((state : RunState platform)
      → IsAtomic full state.objective.id state_file
          (snapshot full dumps dumps loads state)
          disk
          (save full dumps dumps loads state (start disk)))
    × ((run_id content : String)
        → IsAtomic full run_id report_file content disk
            (write_report full dumps dumps loads run_id content (start disk)))
writes-AreAtomic_example = writes-AreAtomic full dumps dumps loads disk

valid : validate_run_id "run-1" ≡ ok "run-1"
unfolding validate_run_id
valid = refl

save-load_example :
    (((save working dumps dumps loads approved (start disk)).0 ≡ ok tt)
      × ((load working dumps dumps loads "run-1"
            (save working dumps dumps loads approved (start disk)).1).0
          ≡ decode_state loads (snapshot working dumps dumps loads approved)))
    ⊎ ((e : Error) × ((save working dumps dumps loads approved (start disk)).0 ≡ err e)
        × ((load working dumps dumps loads "run-1"
              (save working dumps dumps loads approved (start disk)).1).0
            ≡ decode_state loads "old"))
    ⊎ (((save working dumps dumps loads approved (start disk)).0 ≡ err cancelled_error)
        × ((load working dumps dumps loads "run-1"
              (save working dumps dumps loads approved (start disk)).1).0
            ≡ decode_state loads (snapshot working dumps dumps loads approved)))
save-load_example = save-load working dumps dumps loads disk approved "old" valid refl refl refl

append_event-extends_example :
    EndsIn
      (Now working
        (IsExtended "run-1" "first" disk)
        (IsAppended "run-1" "first" (event_line working dumps dumps loads event) disk))
      (Now working (IsExtended "run-1" "first" disk) (IsExtended "run-1" "first" disk))
      (append_event working dumps dumps loads "run-1" event (start disk))
append_event-extends_example =
    append_event-extends working dumps dumps loads disk "run-1" "first" event refl
