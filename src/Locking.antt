-- ===== src/Locking.antt =====
-- src/goalrouter/locking.py: the descriptors and advisory locks of the process. Each call of the
-- operating system is answered from the calls before it. A descriptor is named by a number that no
-- descriptor had before; `close` gives it up also when it reports an error, as on Linux.
pub mod Leases
pub mod Balance
pub mod Opening
pub mod Acquired
pub mod Protocol
pub mod Progress
use goal_router.Common.{ℕ, ◌+◌, Bool, true, false, not, ◌||◌, ◌&&◌, List, [], ◌∷◌, eqb}
use goal_router.Errors.{Error, Result, ok, err, os_error}

pub data Call : Type 0 where
  -- `state_root.mkdir(parents=True, exist_ok=True)` and `project_path.resolve(strict=True)`
  make_state_root resolve : Call
  make_directory : (parent : ℕ) → Call
  -- `os.open` of a path, or of a name below a directory
  open_root : Call
  open_below : (parent : ℕ) → Call
  close lock unlock change_mode inspect : (descriptor : ℕ) → Call
  -- `wait_for_owned_task`, which collects the cancellations that arrive
  wait : Call

pub data Answer : Type 0 where
  done : Answer
  -- FileExistsError
  exists : Answer
  -- an OSError with EACCES or EAGAIN, and any other
  busy failed : Answer
  -- `fstat` of something that is no regular file
  irregular : Answer
  -- `wait` with a cancellation
  cancelled : Answer

pub record World : Type 0 where
  pub opened : ℕ → Bool
  pub held : ℕ → Bool
  pub next : ℕ
  pub calls : List Call

abbrev pub is_done : Answer → Bool
is_done Answer.done = true
is_done _ = false

abbrev pub result_of : Answer → Result (Unit {0})
result_of Answer.done = ok tt
result_of _ = err os_error

module _ (answer : List Call → Call → Answer) where
  -- the call, noted
  abbrev pub noted : Call → World → World
  noted call w = record w { calls = call ∷ w.calls }

  abbrev pub answered : Call → World → Answer
  answered call w = answer w.calls call

  -- a call that changes no descriptor
  unfoldable pub effect : Call → World → World × Result (Unit {0})
  effect call w = (noted call w, result_of (answered call w))

  abbrev pub opening : Result (Unit {0}) → World → World × Result ℕ
  opening (err e) w = (w, err e)
  opening (ok _) w =
      (record w { opened = λ k. eqb k w.next || w.opened k; next = w.next + 1 }, ok w.next)

  -- `_open_descriptor`
  unfoldable pub open_descriptor : Call → World → World × Result ℕ
  open_descriptor call w = opening (result_of (answered call w)) (noted call w)

  -- `_close_descriptor`
  unfoldable pub close_descriptor : ℕ → World → World × Result (Unit {0})
  close_descriptor fd w = (
    record (noted (Call.close fd) w) {
      opened = λ k. not (eqb k fd) && w.opened k;
      held = λ k. not (eqb k fd) && w.held k;
    },
    result_of (answered (Call.close fd) w),
  )

  -- `_flock_descriptor(descriptor, LOCK_EX | LOCK_NB)`
  unfoldable pub lock_descriptor : ℕ → World → World × Answer
  lock_descriptor fd w =
      let a = answered (Call.lock fd) w in
      (record (noted (Call.lock fd) w) { held = λ k. (eqb k fd && is_done a) || w.held k }, a)

  -- `_flock_descriptor(descriptor, LOCK_UN)`
  unfoldable pub unlock_descriptor : ℕ → World → World × Result (Unit {0})
  unlock_descriptor fd w =
      let a = answered (Call.unlock fd) w in
      (
        record (noted (Call.unlock fd) w) { held = λ k. not (eqb k fd && is_done a) && w.held k },
        result_of a,
      )
