-- ===== src/Store/Disk.antt =====
-- src/goalrouter/storage/json_store.py: the directories and files of the runs, and the calls of the
-- operating system on them. A call is answered from the calls before it, each with the disk after it.
use goal_router.Common.{String, Bool, ◌&&◌, Option, List, ◌==◌, if◌then◌else◌}
use goal_router.Errors.{Result, ok, err}
use goal_router.Actions

pub record Disk : Type 0 where
  -- the run directories, by run identifier
  pub directory : String → Bool
  -- the files in them, by run identifier and name
  pub text : String → String → Option String

pub data Call : Type 0 where
  make_root : Call
  make_directory : (run : String) → Call
  truncate : (run name : String) → Call
  create_temporary : (run name : String) → Call
  open_append : (run name : String) → Call
  write flush sync close : (run name : String) → Call
  replace : (run source target : String) → Call
  unlink : (run name : String) → Call
  read : (run name : String) → Call

abbrev pub Trace : Type 0
Trace = List (Call × Disk)

pub record World : Type 0 where
  pub disk : Disk
  pub trace : Trace

-- What a cancellation finds at an `await asyncio.to_thread`: there is none; the thread has not begun its
-- work and never will, as when the operation still waits for the lock of the run; or the thread is at
-- work and goes on to its end, while the `await` raises.
pub data Cancellation : Type 0 where
  not_cancelled unstarted running : Cancellation

pub record Os : Type 0 where
  pub answer : Trace → Call → Result (Unit {0})
  -- what stands in a file of what is written to it, before it is flushed
  pub spilled : Trace → String
  -- at the `await` that begins after these calls
  pub cancellation : Trace → Cancellation
  -- the random part of a temporary name
  pub random : Trace → String

abbrev pub Action : Type 0 → Type 0
Action A = Actions.Action World A

abbrev pub with_text : Disk → String → String → Option String → Disk
with_text d run name t = record d { text = λ r n. if r == run && n == name then t else d.text r n }

abbrev pub either : {A : Type 0} → Result (Unit {0}) → A → A → A
either (ok _) a b = a
either (err e) a b = b
