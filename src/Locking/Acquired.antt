-- ===== src/Locking/Acquired.antt =====
-- locking.py: taking the lock of a descriptor and giving it up.
use goal_router.Common.{
  ℕ, ◌≤◌, ◌<◌, Bool, true, false, ◌||◌, ◌&&◌, List, [], ◌∷◌, ◌≡◌, refl, inl, inr, eqb, arith,
  Bool-cases,
}
use goal_router.Errors.{Error, ok, err}
use goal_router.Locking.{
  Call, Answer, World, close_descriptor, lock_descriptor, unlock_descriptor, noted, answered,
  is_done,
}
use goal_router.Locking.Leases.{
  Outcome, attempt, after_lock, lock_opened, release_descriptor, after_release,
  release_cancellation_safe, after_acquisition, was_cancelled,
}
use goal_router.Locking.Balance.{IsBounded, Adds, Adds-none, Owns}

-- The second world has one descriptor more, with the lock.
pub record Locked (w : World) (fd : ℕ) (w' : World) : Type 0 where
  pub low : w.next ≤ fd
  pub high : fd < w'.next
  pub mono : w.next ≤ w'.next
  pub opened : (k : ℕ) → w'.opened k ≡ (eqb k fd || w.opened k)
  pub held : (k : ℕ) → w'.held k ≡ (eqb k fd || w.held k)

-- A lease that is given is locked, and one that is refused leaves nothing.
abbrev pub Acquired : World → Outcome ℕ → Type 0
Acquired w (w', ok fd) = Locked w fd w'
Acquired w (w', err e) = Adds [] w w'

pub Locked-IsBounded : {fd : ℕ} {w w1 : World} → IsBounded w → Locked w fd w1 → IsBounded w1
Locked-IsBounded {fd} {w} {w1} bounded a = record {
  opened = λ k h. ground (arith, a.opened k, bounded.opened k, a.mono, a.high);
  held = λ k h. ground (arith, a.held k, bounded.held k, a.mono, a.high);
}

pub Locked-none : {fd : ℕ} {w w1 w2 : World} → Locked w fd w1 → Adds [] w1 w2 → Locked w fd w2
Locked-none {fd} {w} {w1} {w2} a b = record {
  low = a.low;
  high = ground (arith, a.high, b.mono);
  mono = ground (arith, a.mono, b.mono);
  opened = λ k. ground (arith, a.opened k, b.opened k);
  held = λ k. ground (arith, a.held k, b.held k);
}

module _ (answer : List Call → Call → Answer) where
  noted-Adds : (call : Call) (w : World) → Adds [] w (noted answer call w)
  noted-Adds call w = record {
    low = tt;
    high = tt;
    mono = ground arith;
    opened = λ k. refl;
    held = λ k. refl;
  }

  -- what closing the new descriptor leaves, whatever lock it has
  closed :
      {w : World} (fd : ℕ) (w1 : World)
      → IsBounded w
      → w.next ≤ fd
      → w.next ≤ w1.next
      → ((k : ℕ) → w1.opened k ≡ (eqb k fd || w.opened k))
      → ((k : ℕ) → eqb k fd ≡ false → w1.held k ≡ w.held k)
      → Adds [] w (close_descriptor answer fd w1).0
  unfolding close_descriptor
  closed {w} fd w1 bounded low mono opened held = record {
    low = tt;
    high = tt;
    mono = mono;
    opened = λ k. ground (arith, opened k, bounded.opened k, low);
    held = λ k. ground (arith, held k, bounded.held k, low);
  }

  release_descriptor-Adds :
      {w : World} (fd : ℕ) (w1 : World)
      → IsBounded w
      → Locked w fd w1
      → Adds [] w (release_descriptor answer fd w1).0
  unfolding release_descriptor unlock_descriptor
  release_descriptor-Adds fd w1 bounded a =
      closed fd (unlock_descriptor answer fd w1).0 bounded a.low a.mono a.opened
        (λ k apart. ground (arith, a.held k))

  pub release_cancellation_safe-Adds :
      {w : World} (fd : ℕ) (w1 : World)
      → IsBounded w
      → Locked w fd w1
      → Adds [] w (release_cancellation_safe answer fd w1).0
  unfolding release_cancellation_safe after_release
  release_cancellation_safe-Adds {w} fd w1 bounded a =
      let w2 = (release_descriptor answer fd w1).0 in
      let b = Adds-none (release_descriptor-Adds fd w1 bounded a) (noted-Adds Call.wait w2) in
      elim (Bool-cases (was_cancelled (answered answer Call.wait w2))) [
        | inl e ↦ rw e b
        | inr e ↦ rw e b
      ]

  -- the world after the attempt to take the lock
  abbrev tried : ℕ → World → Answer → World
  tried fd w1 a = record (noted answer (Call.lock fd) w1) {
    held = λ k. (eqb k fd && is_done a) || w1.held k;
  }

  refused :
      {w : World} (fd : ℕ) (w1 : World) (a : Answer)
      → IsBounded w
      → Adds (fd ∷ []) w w1
      → is_done a ≡ false
      → Adds [] w (close_descriptor answer fd (tried fd w1 a)).0
  refused {w} fd w1 a bounded adds e =
      closed fd (tried fd w1 a) bounded adds.low.0 adds.mono (λ k. ground (arith, adds.opened k))
        (λ k apart. ground (arith, adds.held k))

  given :
      {w : World} (fd : ℕ) (w1 : World)
      → Adds (fd ∷ []) w w1
      → Locked w fd (tried fd w1 Answer.done)
  given fd w1 adds = record {
    low = adds.low.0;
    high = adds.high.0;
    mono = adds.mono;
    opened = λ k. ground (arith, adds.opened k);
    held = λ k. ground (arith, adds.held k);
  }

  after_lock-Acquired :
      {w : World} (busy : Error) (fd : ℕ) (w1 : World) (a : Answer)
      → IsBounded w
      → Adds (fd ∷ []) w w1
      → Acquired w (after_lock answer busy fd (tried fd w1 a) a)
  unfolding after_lock
  after_lock-Acquired busy fd w1 Answer.done bounded adds = given fd w1 adds
  after_lock-Acquired busy fd w1 Answer.busy bounded adds =
      refused fd w1 Answer.busy bounded adds refl
  after_lock-Acquired busy fd w1 Answer.exists bounded adds =
      refused fd w1 Answer.exists bounded adds refl
  after_lock-Acquired busy fd w1 Answer.failed bounded adds =
      refused fd w1 Answer.failed bounded adds refl
  after_lock-Acquired busy fd w1 Answer.irregular bounded adds =
      refused fd w1 Answer.irregular bounded adds refl
  after_lock-Acquired busy fd w1 Answer.cancelled bounded adds =
      refused fd w1 Answer.cancelled bounded adds refl

  pub lock_opened-Acquired :
      {w : World} (busy : Error) (o : Outcome ℕ)
      → IsBounded w
      → Owns w o
      → Acquired w (attempt o (λ fd w1. lock_opened answer busy fd w1))
  unfolding lock_opened lock_descriptor
  lock_opened-Acquired busy (w1, err e) bounded a = a
  lock_opened-Acquired busy (w1, ok fd) bounded a =
      after_lock-Acquired busy fd w1 (answered answer (Call.lock fd) w1) bounded a

  pub after_acquisition-Acquired :
      {w : World} (failure : Error) (was : Bool) (o : Outcome ℕ)
      → IsBounded w
      → Acquired w o
      → Acquired w (after_acquisition answer failure was o)
  unfolding after_acquisition
  after_acquisition-Acquired failure true (w1, err e) bounded a = a
  after_acquisition-Acquired failure false (w1, err e) bounded a = a
  after_acquisition-Acquired failure true (w1, ok fd) bounded a =
      release_cancellation_safe-Adds fd w1 bounded a
  after_acquisition-Acquired failure false (w1, ok fd) bounded a = a

  pub waited :
      (w : World) (o : Outcome ℕ) → Acquired w o → Acquired w (noted answer Call.wait o.0, o.1)
  waited w (w1, err e) a = Adds-none a (noted-Adds Call.wait w1)
  waited w (w1, ok fd) a = Locked-none a (noted-Adds Call.wait w1)
