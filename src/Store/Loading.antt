-- ===== src/Store/Loading.antt =====
-- json_store.py: what `load` reads after `save`, and what `append_event` adds to the log of a run.
use Prim.Native.String.{◌++◌}
use text.Mathlib.TextLemmas.{append-nil}
use goal_router.Common.{
  String, false, ◌&&◌, Option, some, ◌≡◌, refl, sym, ap, ◌∙◌, ◌==◌, ◌⊎◌, inl, inr, arith, eq_refl,
  [],
}
use goal_router.Errors.{Error, Result, ok, err, cancelled_error}
use goal_router.Domain.Platform.{Platform}
use goal_router.Domain.Json.{JsonValue}
use goal_router.Domain.RunState.{RunState, RunEvent}
use goal_router.RunIds.{validate_run_id}
use goal_router.Store.Disk.{Disk, Call, Cancellation, World, Os, Action, with_text}
use goal_router.Store.Files.{call, read, read_again}
use goal_router.Store.Runs.{
  reporting, state_error_of, decode_state, state_file, events_file, snapshot, event_line, save,
  append_to, append_event, load, load_sync, awaited, to_thread,
}
use goal_router.Store.Calls.{EndsIn, Now, continue-Ends, call-Ends, write_through-Ends}
use goal_router.Store.Atomic.{KeepsOthers}
use goal_router.Store.Snapshots.{start, IsAtomic, writes-AreAtomic, reporting-Ends, validated}

read-text :
    (os : Os) (id name text : String) (w : World)
    → os.answer w.trace (Call.read id name) ≡ ok tt
    → w.disk.text id name ≡ some text
    → (read os id name w).0 ≡ ok text
unfolding read
read-text os id name text w answered found = rw answered (rw (found, read_again) refl)

-- the file after an atomic write: new if it returned, old if it raised, either if it was cancelled
written-text :
    (os : Os) (id name content : String) (disk : Disk) (o : Result (Unit {0}) × World)
    → IsAtomic os id name content disk o
    → ((o.0 ≡ ok tt) × (o.1.disk.text id name ≡ some content))
      ⊎ ((e : Error) × (o.0 ≡ err e) × (o.1.disk.text id name ≡ disk.text id name))
      ⊎ ((o.0 ≡ err cancelled_error) × (o.1.disk.text id name ≡ some content))
written-text os id name content disk (ok u, w) (replaced, all) = inl (refl, replaced.target)
written-text os id name content disk (err e, w) ((whole, inr staged), all) =
    inr (inl (e, refl, staged.target))
written-text os id name content disk (err e, w) ((whole, inl cancelled), all) = elim whole.target [
  | inl old ↦ inr (inl (e, refl, old))
  | inr new ↦ inr (inr (ap (λ x. err x) cancelled, new))
]

module _ {P : Platform} (os : Os) (dumps dumps_line : JsonValue P → String)
    (loads : String → Option (JsonValue P)) (disk : Disk) where
  load-text :
      (id text : String) (w : World)
      → validate_run_id id ≡ ok id
      → os.cancellation w.trace ≡ Cancellation.not_cancelled
      → os.answer w.trace (Call.read id state_file) ≡ ok tt
      → w.disk.text id state_file ≡ some text
      → (load os dumps dumps_line loads id w).0 ≡ decode_state loads text
  unfolding load load_sync to_thread awaited reporting
  load-text id text w valid undisturbed answered found =
      rw valid (rw undisturbed (rw (read-text os id state_file text w answered found) refl))

  -- After a `save` on a run with a snapshot, and after the thread of the `save` has come to its end, if
  -- the `load` is not cancelled and its read succeeds: the `save` returned, and `load` decodes exactly the
  -- text that it wrote; or it raised, and `load` decodes exactly the text before it; or it was cancelled,
  -- and `load` decodes exactly the text that the thread went on to write.
  pub save-load :
      (state : RunState P) (old : String)
      → validate_run_id state.objective.id ≡ ok state.objective.id
      → disk.text state.objective.id state_file ≡ some old
      → os.cancellation (save os dumps dumps_line loads state (start disk)).1.trace
        ≡ Cancellation.not_cancelled
      → os.answer
          (save os dumps dumps_line loads state (start disk)).1.trace
          (Call.read state.objective.id state_file)
        ≡ ok tt
      → (((save os dumps dumps_line loads state (start disk)).0 ≡ ok tt)
          × ((load os dumps dumps_line loads state.objective.id
                (save os dumps dumps_line loads state (start disk)).1).0
              ≡ decode_state loads (snapshot os dumps dumps_line loads state)))
        ⊎ ((e : Error) × ((save os dumps dumps_line loads state (start disk)).0 ≡ err e)
            × ((load os dumps dumps_line loads state.objective.id
                  (save os dumps dumps_line loads state (start disk)).1).0
                ≡ decode_state loads old))
        ⊎ (((save os dumps dumps_line loads state (start disk)).0 ≡ err cancelled_error)
            × ((load os dumps dumps_line loads state.objective.id
                  (save os dumps dumps_line loads state (start disk)).1).0
                ≡ decode_state loads (snapshot os dumps dumps_line loads state)))
  save-load state old valid before undisturbed answered =
      let id = state.objective.id in
      let content = snapshot os dumps dumps_line loads state in
      let o = save os dumps dumps_line loads state (start disk) in
      elim (written-text os id state_file content disk o
        ((writes-AreAtomic os dumps dumps_line loads disk).0 state)) [
          | inl (returned, text) ↦
              inl (returned, load-text id content o.1 valid undisturbed answered text)
          | inr (inl (e, raised, text)) ↦
              inr (inl (e, raised, load-text id old o.1 valid undisturbed answered (text ∙ before)))
          | inr (inr (raised, text)) ↦
              inr (inr (raised, load-text id content o.1 valid undisturbed answered text))
        ]

-- The log of the events is the old one with something added; other files are as before.
pub record IsExtended (id old : String) (before d : Disk) : Type 0 where
  pub others : KeepsOthers id events_file events_file old before d
  pub added : (t : String) × (d.text id events_file ≡ some (old ++ t))

-- The log of the events is the old one with the line added; other files are as before.
pub record IsAppended (id old line : String) (before d : Disk) : Type 0 where
  pub others : KeepsOthers id events_file events_file old before d
  pub added : d.text id events_file ≡ some (old ++ line)

module _ (id old line : String) (before : Disk) where
  put-events :
      (d : Disk) (t : Option String)
      → KeepsOthers id events_file events_file old before d
      → KeepsOthers id events_file events_file old before (with_text d id events_file t)
  put-events d t h = record {
    directory = h.directory;
    text = λ r n apart.
        let e : (r == id && n == events_file) ≡ false = ground (arith, apart) in
        rw e (h.text r n apart);
  }

  spill-IsExtended :
      (t : String) (d : Disk)
      → IsExtended id old before d
      → IsExtended id old before (with_text d id events_file (some (old ++ t)))
  spill-IsExtended t d h = record {
    others = put-events d (some (old ++ t)) h.others;
    added = (t, rw (eq_refl id) refl);
  }

  fill-IsAppended :
      (d : Disk)
      → IsExtended id old before d
      → IsAppended id old line before (with_text d id events_file (some (old ++ line)))
  fill-IsAppended d h = record {
    others = put-events d (some (old ++ line)) h.others;
    added = rw (eq_refl id) refl;
  }

  appended-IsExtended : (d : Disk) → IsAppended id old line before d → IsExtended id old before d
  appended-IsExtended d h = record { others = h.others; added = (line, h.added) }

  module _ (os : Os) where
    append_to-Ends :
        (w : World)
        → Now os (IsExtended id old before) (IsExtended id old before) w
        → EndsIn
            (Now os (IsExtended id old before) (IsAppended id old line before))
            (Now os (IsExtended id old before) (IsExtended id old before))
            (append_to os id line (some old) w)
    unfolding append_to
    append_to-Ends w (extended, all) =
        let Whole = IsExtended id old before in
        let post = Now os Whole (IsAppended id old line before) in
        continue-Ends (λ _. Now os Whole Whole) (λ _. post) (Now os Whole Whole) _
          (call os (Call.open_append id events_file) (λ d. d) (λ d. d) w)
          (call-Ends os Whole _ _ _ Whole Whole w (λ d h. h) (λ d h. h) all extended extended)
          (λ _ w' h.
            write_through-Ends os Whole (λ added. old ++ added) id events_file line Whole
              (IsAppended id old line before) (λ d h. h) appended-IsExtended spill-IsExtended
              fill-IsAppended w' h)

  -- the state of things before the first call
  extended : before.text id events_file ≡ some old → IsExtended id old before before
  extended found = record {
    others = record { directory = λ r. refl; text = λ r n apart. refl };
    added = ("", found ∙ ap some (sym (append-nil old)));
  }

gone_on :
    (post fail : World → Type 0) (o : Result (Unit {0}) × World)
    → ((w : World) → post w → fail w)
    → EndsIn post fail o
    → fail o.1
gone_on post fail (ok u, w) weaken h = weaken w h
gone_on post fail (err e, w) weaken h = h

-- an action in a thread, which may go on after a cancellation
awaited-Ends :
    (post fail : World → Type 0) (c : Cancellation) (m : Action (Unit {0})) (w : World)
    → ((w' : World) → post w' → fail w')
    → fail w
    → EndsIn post fail (m w)
    → EndsIn post fail (awaited c m w)
unfolding awaited
awaited-Ends post fail Cancellation.not_cancelled m w weaken before h = h
awaited-Ends post fail Cancellation.unstarted m w weaken before h = before
awaited-Ends post fail Cancellation.running m w weaken before h = gone_on post fail (m w) weaken h

module _ {P : Platform} (os : Os) (dumps dumps_line : JsonValue P → String)
    (loads : String → Option (JsonValue P)) (disk : Disk) where
  -- On a run with an event log, `append_event` only adds to it, whichever calls fail and whether or not
  -- it is cancelled: every disk on the way has the old log with something added, and every other file as
  -- before; if it returns, what is added is the line of the event.
  pub append_event-extends :
      (id old : String) (e : RunEvent P)
      → disk.text id events_file ≡ some old
      → EndsIn
          (Now os
            (IsExtended id old disk)
            (IsAppended id old (event_line os dumps dumps_line loads e) disk))
          (Now os (IsExtended id old disk) (IsExtended id old disk))
          (append_event os dumps dumps_line loads id e (start disk))
  unfolding append_event reporting to_thread
  append_event-extends id old e found =
      let line = event_line os dumps dumps_line loads e in
      let post = Now os (IsExtended id old disk) (IsAppended id old line disk) in
      let fail = Now os (IsExtended id old disk) (IsExtended id old disk) in
      let before = extended id old line disk found in
      elim (validated id) [
        | inl valid ↦ rw valid (
            reporting-Ends post fail state_error_of _ (
              awaited-Ends post fail (os.cancellation []) _ (start disk)
                (λ w (appended, all). (appended-IsExtended id old line disk w.disk appended, all))
                (before, tt)
                (rw found (append_to-Ends id old line disk os (start disk) (before, tt)))))
        | inr invalid ↦ rw invalid (before, tt)
      ]
