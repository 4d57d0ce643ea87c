-- ===== src/Store/Snapshots.antt =====
-- json_store.py: what `save`, `write_report` and `append_event` do to the files of a run, and what
-- `load` reads after `save`.
use goal_router.Common.{String, Option, [], ◌≡◌, refl, ◌⊎◌, inl, inr}
use goal_router.Errors.{Error, Result, ok, err, guard, os_error, state_error, cancelled_error}
use goal_router.Domain.Platform.{Platform}
use goal_router.Domain.Json.{JsonValue}
use goal_router.Domain.RunState.{RunState}
use goal_router.RunIds.{validate_run_id, validate_run_id-IsSingleName}
use goal_router.Actions.{continue, lift, ◌>>=◌, ◌>>◌}
use goal_router.Store.Disk.{Disk, World, Cancellation, Os, Action}
use goal_router.Store.Files.{atomic_write_text, temporary_name}
use goal_router.Store.Runs.{
  reporting, reworded, awaited, to_thread, state_error_of, state_file, report_file, snapshot,
  require_directory, save_sync, save, write_report,
}
use goal_router.Store.Calls.{EndsIn, Now}
use goal_router.Store.Atomic.{
  IsWhole, IsStaged, IsReplaced, staged-IsWhole, replaced-IsWhole, atomic-Ends,
  temporary_name-differs,
}

-- a disk, before the first call
abbrev pub start : Disk → World
start d = record { disk = d; trace = [] }

-- The work of the thread: every disk on the way has the old text of the file or the new one, and changes
-- nothing else but the temporary file; at the end it is new and the temporary file is gone, or, after
-- an exception, it is old.
abbrev IsWritten : Os → String → String → String → Disk → Result (Unit {0}) × World → Type 0
IsWritten os id name content disk o =
    let temporary = temporary_name name (os.random []) in
    EndsIn
      (Now os (IsWhole id name temporary content disk) (IsReplaced id name temporary content disk))
      (Now os (IsWhole id name temporary content disk) (IsStaged id name temporary content disk)) o

-- The file is written as a whole: every disk on the way has its old text or the new one, and changes
-- nothing else but the temporary file; at the end it is new and the temporary file is gone, or, after
-- an exception that is no CancelledError, it is old.
abbrev pub IsAtomic : Os → String → String → String → Disk → Result (Unit {0}) × World → Type 0
IsAtomic os id name content disk (ok _, w) =
    let temporary = temporary_name name (os.random []) in
    Now os (IsWhole id name temporary content disk) (IsReplaced id name temporary content disk) w
IsAtomic os id name content disk (err e, w) =
    let temporary = temporary_name name (os.random []) in
    Now os (IsWhole id name temporary content disk)
      (λ d.
        IsWhole id name temporary content disk d
        × ((e ≡ cancelled_error) ⊎ IsStaged id name temporary content disk d))
      w

unchanged-IsStaged :
    (id name temporary content : String) (disk : Disk)
    → IsStaged id name temporary content disk disk
unchanged-IsStaged id name temporary content disk = record {
  others = record { directory = λ r. refl; text = λ r n apart. refl };
  target = refl;
}

pub reporting-Ends :
    (post fail : World → Type 0) (f : Error → Error) (o : Result (Unit {0}) × World)
    → EndsIn post fail o
    → EndsIn post fail (reworded f o.0, o.1)
reporting-Ends post fail f (ok u, w) h = h
reporting-Ends post fail f (err e, w) h = h

-- a test before an action
checked :
    (post fail : World → Type 0) (r : Result (Unit {0})) (f : Unit {0} → Action (Unit {0}))
    {w : World}
    → fail w
    → EndsIn post fail (f tt w)
    → EndsIn post fail (continue r f w)
checked post fail (ok u) f unchanged h = h
checked post fail (err e) f unchanged h = unchanged

module _ (os : Os) (id name content : String) (disk : Disk) where
  atomic_write_text-IsWritten :
      IsWritten os id name content disk (atomic_write_text os id name content (start disk))
  unfolding atomic_write_text
  atomic_write_text-IsWritten =
      let temporary = temporary_name name (os.random []) in
      atomic-Ends id name temporary content disk (temporary_name-differs name (os.random [])) os
        (start disk) (unchanged-IsStaged id name temporary content disk, tt)

  -- the directory is looked up before the file is written
  in_directory-IsWritten :
      IsWritten os id name content disk
        ((require_directory id >> atomic_write_text os id name content) (start disk))
  unfolding require_directory
  in_directory-IsWritten =
      let temporary = temporary_name name (os.random []) in
      let post =
        Now os (IsWhole id name temporary content disk)
          (IsReplaced id name temporary content disk) in
      let fail =
        Now os (IsWhole id name temporary content disk) (IsStaged id name temporary content disk) in
      checked post fail (guard (disk.directory id) os_error)
        (λ _. atomic_write_text os id name content)
        (unchanged-IsStaged id name temporary content disk, tt) atomic_write_text-IsWritten

  raised-IsAtomic :
      (e : Error) (w : World)
      → IsWritten os id name content disk (err e, w)
      → IsAtomic os id name content disk (err e, w)
  raised-IsAtomic e w (staged, all) = (
    (
      staged-IsWhole id name (temporary_name name (os.random [])) content disk w.disk staged,
      inr staged,
    ),
    all,
  )

  reported-IsAtomic :
      (o : Result (Unit {0}) × World)
      → IsWritten os id name content disk o
      → IsAtomic os id name content disk (reworded state_error_of o.0, o.1)
  reported-IsAtomic (ok u, w) h = h
  reported-IsAtomic (err e, w) h = raised-IsAtomic (state_error_of e) w h

  -- The thread goes on after the cancellation.
  cancelled-IsAtomic :
      (o : Result (Unit {0}) × World)
      → IsWritten os id name content disk o
      → IsAtomic os id name content disk (err cancelled_error, o.1)
  cancelled-IsAtomic (ok u, w) (replaced, all) = (
    (
      replaced-IsWhole id name (temporary_name name (os.random [])) content disk w.disk replaced,
      inl refl,
    ),
    all,
  )
  cancelled-IsAtomic (err e, w) h = raised-IsAtomic cancelled_error w h

  awaited-IsAtomic :
      (c : Cancellation) (m : Action (Unit {0}))
      → IsWritten os id name content disk (m (start disk))
      → IsAtomic os id name content disk (reporting state_error_of (awaited c m) (start disk))
  unfolding reporting awaited state_error_of
  awaited-IsAtomic Cancellation.not_cancelled m h = reported-IsAtomic (m (start disk)) h
  awaited-IsAtomic Cancellation.unstarted m h =
      raised-IsAtomic cancelled_error (start disk)
        (unchanged-IsStaged id name (temporary_name name (os.random [])) content disk, tt)
  awaited-IsAtomic Cancellation.running m h = cancelled-IsAtomic (m (start disk)) h

  to_thread-IsAtomic :
      (m : Action (Unit {0}))
      → IsWritten os id name content disk (m (start disk))
      → IsAtomic os id name content disk (reporting state_error_of (to_thread os m) (start disk))
  unfolding to_thread reporting
  to_thread-IsAtomic m h = awaited-IsAtomic (os.cancellation []) m h

-- A run identifier that is accepted is returned as it is.
pub validated :
    (id : String) → (validate_run_id id ≡ ok id) ⊎ (validate_run_id id ≡ err state_error)
validated id = elim (validate_run_id-IsSingleName id) [ inl h ↦ inl h.0 | inr h ↦ inr h ]

module _ (os : Os) (name : String) (disk : Disk) where
  valid-IsAtomic :
      (id content : String) (f : String → Action (Unit {0}))
      → IsAtomic os id name content disk (f id (start disk))
      → IsAtomic os id name content disk ((lift (validate_run_id id) >>= f) (start disk))
  valid-IsAtomic id content f h = elim (validated id) [
    | inl e ↦ rw e h
    | inr e ↦ rw e (
        raised-IsAtomic os id name content disk state_error (start disk)
          (unchanged-IsStaged id name (temporary_name name (os.random [])) content disk, tt))
  ]

module _ {P : Platform} (os : Os) (dumps dumps_line : JsonValue P → String)
    (loads : String → Option (JsonValue P)) (disk : Disk) where
  -- `save` and `write_report` write their file as a whole, whichever calls fail and whether or not they
  -- are cancelled: every disk on the way has the old text of the file or the whole new text, and other
  -- files are as before but for the temporary file; if they return, the file has the new text and the
  -- temporary file is gone; if they raise anything but CancelledError, the file has its old text. On a
  -- cancellation the last disk is the one at which the thread has come to its end, and the file has
  -- either text.
  pub writes-AreAtomic :
      ((state : RunState P)
        → IsAtomic os state.objective.id state_file
            (snapshot os dumps dumps_line loads state)
            disk
            (save os dumps dumps_line loads state (start disk)))
      × ((run_id content : String)
          → IsAtomic os run_id report_file content disk
              (write_report os dumps dumps_line loads run_id content (start disk)))
  unfolding save save_sync write_report
  writes-AreAtomic = (
    λ state.
        let content = snapshot os dumps dumps_line loads state in
        valid-IsAtomic os state_file disk state.objective.id content
          (λ id.
            reporting state_error_of (to_thread os (save_sync os dumps dumps_line loads state id)))
          (to_thread-IsAtomic os state.objective.id state_file content disk
            (save_sync os dumps dumps_line loads state state.objective.id)
            (in_directory-IsWritten os state.objective.id state_file content disk)),
    λ run_id content.
        valid-IsAtomic os report_file disk run_id content
          (λ id.
            reporting state_error_of
              (to_thread os (require_directory id >> atomic_write_text os id report_file content)))
          (to_thread-IsAtomic os run_id report_file content disk
            (require_directory run_id >> atomic_write_text os run_id report_file content)
            (in_directory-IsWritten os run_id report_file content disk)),
  )
