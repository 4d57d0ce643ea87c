-- ===== src/Store/Calls.antt =====
-- json_store.py: what a sequence of calls keeps of every disk on the way, and what it leaves.
use goal_router.Common.{String, some, ◌∷◌, All}
use goal_router.Errors.{Error, Result, ok, err}
use goal_router.Actions
use goal_router.Actions.{continue, lift}
use goal_router.Store.Disk.{Disk, Call, Trace, World, Os, Action, with_text, either}
use goal_router.Store.Files.{call, write, flush, sync, written, close, write_through}

-- how an action ends: with a value or with an exception
abbrev pub Ends : {A : Type 0} → (A → World → Type 0) → (World → Type 0) → Result A × World → Type 0
Ends post fail (ok a, w) = post a w
Ends post fail (err e, w) = fail w

module _ (post fail : World → Type 0) where
  -- an action without a value
  abbrev pub EndsIn : Result (Unit {0}) × World → Type 0
  EndsIn = Ends (λ u. post) fail

module _ {A B : Type 0} (Q : A → World → Type 0) (R : B → World → Type 0)
    (fail : World → Type 0) where
  pub continue-Ends :
      (f : A → Action B) (o : Result A × World)
      → Ends Q fail o
      → ((a : A) (w : World) → Q a w → Ends R fail (f a w))
      → Ends R fail (continue o.0 f o.1)
  continue-Ends f (ok a, w) h next = next a w h
  continue-Ends f (err e, w) h next = h

module _ (os : Os) (Whole : Disk → Type 0) where
  -- Every disk so far was whole.
  abbrev pub WereWhole : World → Type 0
  WereWhole w = All (λ (e : Call × Disk). Whole e.1) w.trace

  -- The disk has this, and every disk so far was whole.
  abbrev pub Now : (Disk → Type 0) → World → Type 0
  Now D w = D w.disk × WereWhole w

  answered :
      (good bad : Disk) (c : Call) (trace' : Trace) (G B : Disk → Type 0) (r : Result (Unit {0}))
      → ((d : Disk) → G d → Whole d)
      → ((d : Disk) → B d → Whole d)
      → All (λ (e : Call × Disk). Whole e.1) trace'
      → G good
      → B bad
      → EndsIn
          (Now G)
          (Now B)
          (r, record { disk = either r good bad; trace = (c, either r good bad) ∷ trace' })
  answered good bad c trace' G B (ok u) g b all good' bad' = (good', (g good good', all))
  answered good bad c trace' G B (err e) g b all good' bad' = (bad', (b bad bad', all))

  pub call-Ends :
      (c : Call) (good bad : Disk → Disk) (G B : Disk → Type 0) (w : World)
      → ((d : Disk) → G d → Whole d)
      → ((d : Disk) → B d → Whole d)
      → WereWhole w
      → G (good w.disk)
      → B (bad w.disk)
      → EndsIn (Now G) (Now B) (call os c good bad w)
  unfolding call
  call-Ends c good bad G B w g b all good' bad' =
      answered (good w.disk) (bad w.disk) c w.trace G B (os.answer w.trace c) g b all good' bad'

  -- A file is written through: it is open in between, with any text, and full if it is flushed.
  module _ (text : String → String) (run name content : String) (Open Full : Disk → Type 0)
      (whole : (d : Disk) → Open d → Whole d) (opened : (d : Disk) → Full d → Open d)
      (spills : (t : String) (d : Disk) → Open d → Open (with_text d run name (some (text t))))
      (fills : (d : Disk) → Open d → Full (with_text d run name (some (text content)))) where
    written-Ends :
        (w : World) → Now Open w → EndsIn (Now Full) (Now Open) (written os text run name content w)
    unfolding written write flush sync
    written-Ends w (open', all) =
        continue-Ends (λ _. Now Open) (λ _. Now Full) (Now Open) _ (write os text run name w)
          (call-Ends _ _ _ Open Open w whole whole all (spills (os.spilled w.trace) w.disk open')
            (spills (os.spilled w.trace) w.disk open'))
          (λ _ w1 (open1, all1).
            continue-Ends (λ _. Now Full) (λ _. Now Full) (Now Open) _
              (flush os text run name content w1)
              (call-Ends _ _ _ Full Open w1 (λ d f. whole d (opened d f)) whole all1
                (fills w1.disk open1) (spills (os.spilled w1.trace) w1.disk open1))
              (λ _ w2 (full2, all2).
                call-Ends _ _ _ Full Open w2 (λ d f. whole d (opened d f)) whole all2 full2
                  (opened w2.disk full2)))

    closed_full :
        (o : Result (Unit {0}) × World)
        → EndsIn (Now Full) (Now Full) o
        → EndsIn (Now Full) (Now Open) (Actions.replaced_by (ok tt) o.0, o.1)
    closed_full (ok u, w) h = h
    closed_full (err e, w) (full, all) = (opened w.disk full, all)

    closed_open :
        (e : Error) (o : Result (Unit {0}) × World)
        → EndsIn (Now Open) (Now Open) o
        → EndsIn (Now Full) (Now Open) (Actions.replaced_by (err e) o.0, o.1)
    closed_open e (ok u, w) h = h
    closed_open e (err e', w) h = h

    closing :
        (o : Result (Unit {0}) × World)
        → EndsIn (Now Full) (Now Open) o
        → EndsIn (Now Full) (Now Open) (
          Actions.replaced_by o.0 (close os text run name o.0 o.1).0,
          (close os text run name o.0 o.1).1,
        )
    unfolding close
    closing (ok u, w) (full, all) = closed_full (close os text run name (ok u) w) (
        call-Ends _ _ _ Full Full w (λ d f. whole d (opened d f)) (λ d f. whole d (opened d f)) all
          full full)
    closing (err e, w) (open', all) = closed_open e (close os text run name (err e) w) (
        call-Ends _ _ _ Open Open w whole whole all (spills (os.spilled w.trace) w.disk open')
          (spills (os.spilled w.trace) w.disk open'))

    pub write_through-Ends :
        (w : World)
        → Now Open w
        → EndsIn (Now Full) (Now Open) (write_through os text run name content w)
    unfolding write_through
    write_through-Ends w h = closing (written os text run name content w) (written-Ends w h)
