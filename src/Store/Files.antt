-- ===== src/Store/Files.antt =====
-- src/goalrouter/storage/json_store.py: the calls by which the store reads and writes its files, and
-- `_atomic_write_text`.
use Prim.Native.String.{◌++◌}
use goal_router.Common.{String, true, false, none, some, ◌∷◌, ◌==◌, if◌then◌else◌}
use goal_router.Errors.{Error, Result, ok, err, guard, os_error}
use goal_router.Actions
use goal_router.Store.Disk.{Disk, Call, World, Os, Action, with_text, either}
use goal_router.Actions.{pure, lift, ◌>>=◌, ◌>>◌}

module _ (os : Os) where
  -- a call, with the disk that it leaves if it succeeds and if it fails
  unfoldable pub call : Call → (Disk → Disk) → (Disk → Disk) → Action (Unit {0})
  call c good bad w =
      let r = os.answer w.trace c in
      let d = either r (good w.disk) (bad w.disk) in
      (r, record { disk = d; trace = (c, d) ∷ w.trace })

  abbrev pub same : Disk → Disk
  same d = d

  -- the text of a file that is open, as far as it is known
  abbrev spilling : (String → String) → String → String → World → Disk → Disk
  spilling text run name w d = with_text d run name (some (text (os.spilled w.trace)))

  unfoldable pub make_root : Action (Unit {0})
  make_root = call Call.make_root same same

  -- `mkdir(exist_ok=False)`
  unfoldable pub make_directory : String → Action (Unit {0})
  make_directory run w =
      (lift (guard (if w.disk.directory run then false else true) os_error)
          >> call (Call.make_directory run)
              (λ d. record d { directory = λ r. if r == run then true else d.directory r }) same)
        w

  -- `write_text("")`: the file is opened and closed
  unfoldable pub write_empty : String → String → Action (Unit {0})
  write_empty run name = do
    call (Call.truncate run name) (λ d. with_text d run name (some "")) same
    call (Call.close run name) same same

  -- `NamedTemporaryFile`: a new file
  unfoldable pub create_temporary : String → String → Action (Unit {0})
  create_temporary run name w =
      (lift (guard (elim (w.disk.text run name) [ none ↦ true | some t ↦ false ]) os_error)
          >> call (Call.create_temporary run name) (λ d. with_text d run name (some "")) same)
        w

  -- the calls on an open file whose text is to be this one; what was spilled is part of the function
  unfoldable pub write : (String → String) → String → String → Action (Unit {0})
  write text run name w =
      call (Call.write run name) (spilling text run name w) (spilling text run name w) w

  unfoldable pub flush : (String → String) → String → String → String → Action (Unit {0})
  flush text run name content w =
      call (Call.flush run name) (λ d. with_text d run name (some (text content)))
        (spilling text run name w) w

  unfoldable pub sync : String → String → Action (Unit {0})
  sync run name = call (Call.sync run name) same same

  -- `close`, after a body that has flushed the file or has raised
  unfoldable pub close : (String → String) → String → String → Result (Unit {0}) → Action (Unit {0})
  close text run name body w =
      let left = either body same (spilling text run name w) in
      call (Call.close run name) left left w

  -- `with` the open file: `write`, `flush` and `fsync`
  unfoldable pub written : (String → String) → String → String → String → Action (Unit {0})
  unfolding write flush sync
  written text run name content = do write text run name; flush text run name content; sync run name

  unfoldable pub write_through : (String → String) → String → String → String → Action (Unit {0})
  unfolding written close
  write_through text run name content w =
      let (r, w') = written text run name content w in
      let (c, w'') = close text run name r w' in (Actions.replaced_by r c, w'')

  -- `os.replace(source, target)`
  unfoldable pub replace : String → String → String → Action (Unit {0})
  replace run source target =
      call (Call.replace run source target)
        (λ d. with_text (with_text d run target (d.text run source)) run source none) same

  -- `unlink(missing_ok=True)`
  unfoldable pub unlink : String → String → Action (Unit {0})
  unlink run name = call (Call.unlink run name) (λ d. with_text d run name none) same

  abbrev pub read_again : String → String → Result (Unit {0}) → World → Result String
  read_again run name (err e) w = err e
  read_again run name (ok _) w = elim (w.disk.text run name) [ none ↦ err os_error | some t ↦ ok t ]

  -- `read_text()`
  unfoldable pub read : String → String → Action String
  read run name w =
      let r = os.answer w.trace (Call.read run name) in
      (
        read_again run name r w,
        record { disk = w.disk; trace = (Call.read run name, w.disk) ∷ w.trace },
      )

-- the name that `NamedTemporaryFile` gives
unfoldable pub temporary_name : String → String → String
temporary_name name random = "." ++ (name ++ ("." ++ (random ++ ".tmp")))

module _ (os : Os) where
  unfoldable pub replace_target : String → String → String → String → Action (Unit {0})
  unfolding write_through replace
  replace_target run temporary name content = do
    write_through os (λ text. text) run temporary content
    replace os run temporary name

  -- an exception, after the temporary file is removed
  unfoldable pub cleaned : String → String → Error → Action (Unit {0})
  unfolding unlink
  cleaned run temporary e w =
      let (c, w') = unlink os run temporary w in (Actions.replaced_by (err e) c, w')

  -- `_atomic_write_text`
  unfoldable pub atomic_write_text : String → String → String → Action (Unit {0})
  unfolding create_temporary replace_target cleaned
  atomic_write_text run name content w =
      let temporary = temporary_name name (os.random w.trace) in
      (create_temporary os run temporary >> λ w'.
      Actions.on_error (cleaned run temporary) (replace_target run temporary name content w'))
        w
