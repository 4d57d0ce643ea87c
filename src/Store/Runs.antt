-- ===== src/Store/Runs.antt =====
-- src/goalrouter/storage/json_store.py: `JsonRunStore`. Its lock of a run lets one operation on the run
-- at a time through, so an operation is a sequence of calls; after a cancellation the world is the one in
-- which the thread has come to its end. `json.dumps`, in its two forms, and
-- `json.loads` are parameters.
use Prim.Native.String.{◌++◌}
use goal_router.Common.{String, Bool, false, Option, none, some, if◌then◌else◌}
use goal_router.Common.Dict
use goal_router.Common.Dict.{Dict}
use goal_router.Common.Integers.{pos, eqb_ℤ}
use goal_router.Errors.{
  Error, Result, ok, err, guard, os_error, value_error, state_error, cancelled_error,
}
use goal_router.Domain.Platform.{Platform}
use goal_router.Domain.Json.{JsonValue, int, object, entries}
use goal_router.Domain.RunState
use goal_router.Domain.RunState.{RunState, RunEvent, event_dict}
use goal_router.RunIds.{validate_run_id}
use goal_router.Store.{redact_json}
use goal_router.Actions.{lift, ◌>>=◌, ◌>>◌}
use goal_router.Store.Disk.{Call, Cancellation, Os, Action}
use goal_router.Store.Files.{
  make_root, make_directory, write_empty, atomic_write_text, write_through, call, read,
}

-- `except OSError as error: raise StateError`
unfoldable pub state_error_of : Error → Error
state_error_of os_error = state_error
state_error_of e = e

-- `except (OSError, UnicodeError)`; an UnicodeError is a ValueError, the only one that `read_text` raises
unfoldable pub unreadable : Error → Error
unreadable os_error = state_error
unreadable value_error = state_error
unreadable e = e

abbrev pub reworded : {A : Type 0} → (Error → Error) → Result A → Result A
reworded f (ok a) = ok a
reworded f (err e) = err (f e)

unfoldable pub reporting : {A : Type 0} → (Error → Error) → Action A → Action A
reporting f m w = let (r, w') = m w in (reworded f r, w')

-- the outcome of the `await` around an action in a thread
unfoldable pub awaited : {A : Type 0} → Cancellation → Action A → Action A
awaited Cancellation.not_cancelled m w = m w
awaited Cancellation.unstarted m w = (err cancelled_error, w)
awaited Cancellation.running m w = (err cancelled_error, (m w).1)

-- `await asyncio.to_thread(...)`
unfoldable pub to_thread : {A : Type 0} → Os → Action A → Action A
unfolding awaited
to_thread os m w = awaited (os.cancellation w.trace) m w

-- `version != 1`; a Boolean or a float equal to 1 is refused by `RunState.from_dict`, with the same error
unfoldable pub is_one : {P : Platform} → Option (JsonValue P) → Bool
is_one (some (int n)) = eqb_ℤ n (pos 1)
is_one _ = false

module _ {P : Platform} (loads : String → Option (JsonValue P)) where
  unfoldable pub decode_fields : Dict (JsonValue P) → Result (RunState P)
  unfolding is_one
  decode_fields raw =
      if is_one (Dict.get raw "schema_version") then RunState.from_dict raw else err state_error

  unfoldable pub decode_object : Option (JsonValue P) → Result (RunState P)
  unfolding decode_fields
  decode_object (some (object members)) = decode_fields (entries members)
  decode_object _ = err state_error

  -- what `_load_sync` makes of the text of a snapshot
  unfoldable pub decode_state : String → Result (RunState P)
  unfolding decode_object
  decode_state text = decode_object (loads text)

abbrev pub state_file : String
state_file = "state.json"

abbrev pub events_file : String
events_file = "events.jsonl"

abbrev pub report_file : String
report_file = "report.md"

-- `if not path.is_dir(): raise FileNotFoundError`
unfoldable pub require_directory : String → Action (Unit {0})
require_directory id w = (guard (w.disk.directory id) os_error, w)

module _ (os : Os) where
  unfoldable pub append_to : String → String → Option String → Action (Unit {0})
  append_to id line none = lift (err os_error)
  append_to id line (some text) = do
    call os (Call.open_append id events_file) (λ d. d) (λ d. d)
    write_through os (λ added. text ++ added) id events_file line

module _ {P : Platform} (os : Os) (dumps dumps_line : JsonValue P → String)
    (loads : String → Option (JsonValue P)) where
  -- the text of a snapshot
  abbrev pub snapshot : RunState P → String
  snapshot state = dumps (redact_json (RunState.to_dict state)) ++ "\n"

  -- the line of an event
  abbrev pub event_line : RunEvent P → String
  event_line event = dumps_line (redact_json (event_dict event)) ++ "\n"

  unfoldable pub create_sync : RunState P → String → Action (Unit {0})
  create_sync state id = do
    make_root os
    make_directory os id
    write_empty os id events_file
    atomic_write_text os id state_file (snapshot state)

  unfoldable pub create : RunState P → Action (Unit {0})
  create state = do
    id ← lift (validate_run_id state.objective.id)
    reporting state_error_of (to_thread os (create_sync state id))

  unfoldable pub save_sync : RunState P → String → Action (Unit {0})
  save_sync state id = do require_directory id; atomic_write_text os id state_file (snapshot state)

  unfoldable pub save : RunState P → Action (Unit {0})
  save state = do
    id ← lift (validate_run_id state.objective.id)
    reporting state_error_of (to_thread os (save_sync state id))

  unfoldable pub append_event : String → RunEvent P → Action (Unit {0})
  unfolding append_to
  append_event run_id event = do
    id ← lift (validate_run_id run_id)
    reporting state_error_of
        (to_thread os (λ w. append_to os id (event_line event) (w.disk.text id events_file) w))

  unfoldable pub write_report : String → String → Action (Unit {0})
  write_report run_id content = do
    id ← lift (validate_run_id run_id)
    reporting state_error_of
        (to_thread os (require_directory id >> atomic_write_text os id report_file content))

  unfoldable pub load_sync : String → Action (RunState P)
  load_sync id = do
    text ← reporting unreadable (read os id state_file)
    lift (decode_state loads text)

  -- `load`, before the test of the configuration digest
  unfoldable pub load : String → Action (RunState P)
  load run_id = do id ← lift (validate_run_id run_id); to_thread os (load_sync id)
