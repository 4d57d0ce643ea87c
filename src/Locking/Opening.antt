-- ===== src/Locking/Opening.antt =====
-- locking.py: the functions that open the descriptor of a lease.
use goal_router.Common.{ℕ, ◌<◌, List, [], ◌∷◌, All, arith}
use goal_router.Errors.{Error, ok, err, repository_error}
use goal_router.Locking.{Call, Answer, World, effect, open_descriptor, noted, answered}
use goal_router.Locking.Leases.{
  Outcome, attempt, close_descriptors, open_private_directory, close_unless_ok, unless_exists,
  open_project_directory, open_run_lock, or_close, mapped, fail, keep_lock, give_up, after_mode,
  after_inspection, check_lock,
}
use goal_router.Locking.Balance.{
  IsBounded, Adds, Adds-one, Adds-none, Adds-IsBounded, Owns, Owns-after, effect-Adds,
  open_descriptor-Owns, closed-Adds, any-low, any-high, All-raise, close_descriptors-opened,
  close_descriptors-held, close_descriptors-next,
}

attempt-Owns :
    {A : Type 0} {w : World} (o : Outcome A) (next : A → World → Outcome ℕ)
    → Adds [] w o.0
    → ((a : A) → Owns o.0 (next a o.0))
    → Owns w (attempt o next)
attempt-Owns (w1, err e) next a h = a
attempt-Owns (w1, ok x) next a h = Owns-after a (next x w1) (h x)

chain-Owns :
    {w : World} (o : Outcome ℕ) (next : ℕ → World → Outcome ℕ)
    → Owns w o
    → ((fd : ℕ) (w' : World) → Adds (fd ∷ []) w w' → Owns w (next fd w'))
    → Owns w (attempt o next)
chain-Owns (w1, err e) next a h = a
chain-Owns (w1, ok fd) next a h = h fd w1 a

mapped-Owns : (w : World) (e : Error) (o : Outcome ℕ) → Owns w o → Owns w (mapped e o)
mapped-Owns w e (w1, err _) a = a
mapped-Owns w e (w1, ok fd) a = a

module _ (answer : List Call → Call → Answer) where
  close_unless_ok-Owns :
      {w : World} (fd : ℕ) (o : Outcome (Unit {0}))
      → IsBounded w
      → Adds (fd ∷ []) w o.0
      → Owns w (close_unless_ok answer fd o)
  unfolding close_unless_ok close_descriptors
  close_unless_ok-Owns fd (w1, ok _) bounded a = a
  close_unless_ok-Owns fd (w1, err e) bounded a = closed-Adds answer bounded a

  open_private_directory-Owns :
      (parent : ℕ) (w : World) → IsBounded w → Owns w (open_private_directory answer parent w)
  unfolding open_private_directory effect
  open_private_directory-Owns parent w bounded =
      let made = Call.make_directory parent in
      let w1 = noted answer made w in
      let bounded' = Adds-IsBounded bounded (effect-Adds answer made w) in
      attempt-Owns (w1, unless_exists (answered answer made w)) _ (effect-Adds answer made w)
        (λ _.
          chain-Owns {w = w1} (open_descriptor answer (Call.open_below parent) w1) _
            (open_descriptor-Owns answer (Call.open_below parent) w1)
            (λ fd w2 a.
              close_unless_ok-Owns {w = w1} fd (effect answer (Call.change_mode fd) w2) bounded'
                (Adds-none a (effect-Adds answer (Call.change_mode fd) w2))))

  pub open_project_directory-Owns : (w : World) → Owns w (open_project_directory answer w)
  unfolding open_project_directory
  open_project_directory-Owns w = mapped-Owns w repository_error _ (
      attempt-Owns (effect answer Call.resolve w) _ (effect-Adds answer Call.resolve w)
        (λ _. open_descriptor-Owns answer Call.open_root _))

  -- A step of `_open_run_lock` after which nothing is open but what was before.
  fail-Owns :
      {ds : List ℕ} {w : World} (w1 : World)
      → IsBounded w
      → Adds ds w w1
      → Owns w (fail answer ds w1)
  fail-Owns w1 bounded a = closed-Adds answer bounded a

  -- A step that opens a descriptor above those that are open.
  or_close-Owns :
      {ds : List ℕ} {w w1 : World} (o : Outcome ℕ) (next : ℕ → World → Outcome ℕ)
      → IsBounded w
      → Adds ds w w1
      → Owns w1 o
      → ((fd : ℕ) (w2 : World) → Adds (fd ∷ ds) w w2 → All (λ d. d < fd) ds → Owns w (next fd w2))
      → Owns w (or_close answer ds o next)
  or_close-Owns {ds} {w} {w1} (w2, err e) next bounded a b h =
      closed-Adds answer bounded (Adds-none a b)
  or_close-Owns {ds} {w} {w1} (w2, ok fd) next bounded a b h =
      h fd w2 (Adds-one a b) (All-raise w1.next fd b.low.0 ds a.high)

  give_up-Owns :
      {ds : List ℕ} {w : World} (fd : ℕ) (w1 : World)
      → IsBounded w
      → Adds (fd ∷ ds) w w1
      → Owns w (give_up answer fd ds w1)
  unfolding give_up close_descriptors
  give_up-Owns fd w1 bounded a = closed-Adds answer bounded a

  -- The directories are closed and the lock descriptor is left.
  kept-Adds :
      {ds : List ℕ} {w : World} (fd : ℕ) (w1 : World)
      → IsBounded w
      → Adds (fd ∷ ds) w w1
      → All (λ d. d < fd) ds
      → Adds (fd ∷ []) w (close_descriptors answer ds w1).0
  kept-Adds {ds} {w} fd w1 bounded a below = record {
    low = (a.low.0, tt);
    high = (ground (arith, a.high.0, close_descriptors-next answer ds w1), tt);
    mono = ground (arith, a.mono, close_descriptors-next answer ds w1);
    opened = λ k. ground (
      arith,
      a.opened k,
      close_descriptors-opened answer ds w1 k,
      bounded.opened k,
      any-low w.next k ds a.low.1,
      any-high fd k ds below,
    );
    held = λ k. ground (
      arith,
      a.held k,
      close_descriptors-held answer ds w1 k,
      bounded.held k,
      any-low w.next k ds a.low.1,
    );
  }

  keep_lock-Owns :
      {w : World} (fd : ℕ) (o : Outcome (Unit {0}))
      → IsBounded w
      → Adds (fd ∷ []) w o.0
      → Owns w (keep_lock answer fd o)
  unfolding keep_lock
  keep_lock-Owns fd (w1, ok _) bounded a = a
  keep_lock-Owns fd (w1, err _) bounded a = closed-Adds answer bounded a

  after_mode-Owns :
      {ds : List ℕ} {w : World} (fd : ℕ) (o : Outcome (Unit {0}))
      → IsBounded w
      → Adds (fd ∷ ds) w o.0
      → All (λ d. d < fd) ds
      → Owns w (after_mode answer fd ds o)
  unfolding after_mode
  after_mode-Owns {ds} fd (w1, ok _) bounded a below =
      keep_lock-Owns fd (close_descriptors answer ds w1) bounded (kept-Adds fd w1 bounded a below)
  after_mode-Owns fd (w1, err _) bounded a below = give_up-Owns fd w1 bounded a

  after_inspection-Owns :
      {ds : List ℕ} {w : World} (fd : ℕ) (w1 : World) (inspected : Answer)
      → IsBounded w
      → Adds (fd ∷ ds) w w1
      → All (λ d. d < fd) ds
      → Owns w (after_inspection answer fd ds w1 inspected)
  unfolding after_inspection
  after_inspection-Owns fd w1 Answer.done bounded a below =
      after_mode-Owns fd (effect answer (Call.change_mode fd) w1) bounded
        (Adds-none a (effect-Adds answer (Call.change_mode fd) w1)) below
  after_inspection-Owns fd w1 Answer.exists bounded a below = give_up-Owns fd w1 bounded a
  after_inspection-Owns fd w1 Answer.busy bounded a below = give_up-Owns fd w1 bounded a
  after_inspection-Owns fd w1 Answer.failed bounded a below = give_up-Owns fd w1 bounded a
  after_inspection-Owns fd w1 Answer.irregular bounded a below = give_up-Owns fd w1 bounded a
  after_inspection-Owns fd w1 Answer.cancelled bounded a below = give_up-Owns fd w1 bounded a

  check_lock-Owns :
      {ds : List ℕ} {w : World} (fd : ℕ) (w1 : World)
      → IsBounded w
      → Adds (fd ∷ ds) w w1
      → All (λ d. d < fd) ds
      → Owns w (check_lock answer fd ds w1)
  unfolding check_lock effect
  check_lock-Owns fd w1 bounded a below =
      after_inspection-Owns fd _ _ bounded (Adds-none a (effect-Adds answer (Call.inspect fd) w1))
        below

  root_made-Owns :
      {w : World} (o : Outcome (Unit {0})) (next : Unit {0} → World → Outcome ℕ)
      → Adds [] w o.0
      → ((w1 : World) → Adds [] w w1 → Owns w (next tt w1))
      → Owns w (or_close answer [] o next)
  unfolding close_descriptors
  root_made-Owns (w1, err e) next a h = a
  root_made-Owns (w1, ok tt) next a h = h w1 a

  pub open_run_lock-Owns : (w : World) → IsBounded w → Owns w (open_run_lock answer w)
  unfolding open_run_lock
  open_run_lock-Owns w bounded =
      root_made-Owns (effect answer Call.make_state_root w) _
        (effect-Adds answer Call.make_state_root w)
        (λ w1 a1.
          or_close-Owns (open_descriptor answer Call.open_root w1) _ bounded a1
            (open_descriptor-Owns answer Call.open_root w1)
            (λ root w2 a2 _.
              or_close-Owns (open_private_directory answer root w2) _ bounded a2
                (open_private_directory-Owns root w2 (Adds-IsBounded bounded a2))
                (λ locks w3 a3 _.
                  or_close-Owns (open_private_directory answer locks w3) _ bounded a3
                    (open_private_directory-Owns locks w3 (Adds-IsBounded bounded a3))
                    (λ runs w4 a4 _.
                      or_close-Owns (open_descriptor answer (Call.open_below runs) w4) _ bounded a4
                        (open_descriptor-Owns answer (Call.open_below runs) w4)
                        (λ fd w5 a5 below. check_lock-Owns fd w5 bounded a5 below)))))
