-- ===== src/Application/Coordinator/Lease.antt =====
-- application.py: the run lease around a use case.
use goal_router.Common.{
  String, Bool, true, false, ◌&&◌, ◌==◌, ◌∷◌, ◌≡◌, refl, sym, ap, arith, eq_refl,
}
use goal_router.Errors.{Result, ok, err}
use goal_router.Domain.Platform.{Platform}
use goal_router.Scheduler.{passed}
use goal_router.Scheduler.Effects.{first_error}
use goal_router.Application.Ports.{
  Log, Ports, Action, enter, leave, with_run_lease, acquire, release,
}
use goal_router.Application.Operations.{Parts}
use goal_router.Errors.{ok-injective}
use mathlib.Core.Path.{subst}
use goal_router.Application.Coordinator.Guard.{AreGuarded, is_held, Does, After}

not_given :
    (run id : String) (r : Result (Unit {0})) → passed r ≡ false → (run == id && passed r) ≡ false
not_given run id r h = ground (arith, h)

given_to : (id : String) (r : Result (Unit {0})) → passed r ≡ true → (id == id && passed r) ≡ true
given_to id r h = rw (eq_refl id) h

module _ {P : Platform} (parts : Parts P) (ports : Ports P) where
  -- A use case that holds the lease around its body leaves no lease held.
  pub record Closed (log : Log P) : Type 0 where
    pub guarded : AreGuarded parts ports log
    pub free : (run : String) → is_held parts ports run log ≡ false

  leave-Closed :
      {A : Type 0} (v : Bool) (Q : A → Type 0) (id : String) (o : Result A × Log P)
      → After parts ports id v Q o
      → Closed (leave ports id o).1
  unfolding leave is_held
  leave-Closed v Q id (ok a, log) (q, inside) = record {
    guarded = (inside.held, inside.guarded);
    free = λ run. refl;
  }
  leave-Closed v Q id (err e, log) inside = record {
    guarded = (inside.held, inside.guarded);
    free = λ run. refl;
  }

  enter-Closed :
      {A : Type 0} {v : Bool} {Q : A → Type 0} (id : String) (body : Action P A) (log : Log P)
      (given : Result (Unit {0}))
      → given ≡ ports.acquire (acquire id ∷ log)
      → AreGuarded parts ports log
      → Does parts ports id false body v Q
      → Closed (enter ports id body given (acquire id ∷ log)).1
  unfolding enter is_held
  enter-Closed id body log (err e) same guarded does = record {
    guarded = (tt, guarded);
    free = λ run. not_given run id (ports.acquire (acquire id ∷ log)) (ap passed (sym same));
  }
  enter-Closed {v} {Q} id body log (ok _) same guarded does =
      leave-Closed v Q id (body (acquire id ∷ log)) (
        does.leaves (acquire id ∷ log) (record {
          guarded = (tt, guarded);
          held = given_to id (ports.acquire (acquire id ∷ log)) (ap passed (sym same));
          models = λ e. cc;
        }))

  pub with_run_lease-Closed :
      {A : Type 0} {v : Bool} {Q : A → Type 0} (id : String) (body : Action P A) (log : Log P)
      → AreGuarded parts ports log
      → Does parts ports id false body v Q
      → Closed (with_run_lease ports id body log).1
  unfolding with_run_lease
  with_run_lease-Closed id body log guarded does =
      enter-Closed id body log (ports.acquire (acquire id ∷ log)) refl guarded does

  first_error-ok :
      {A : Type 0} (b a : A) (c : Result (Unit {0})) → first_error (ok b) c ≡ ok a → b ≡ a
  first_error-ok b a (ok u) h = ok-injective h
  first_error-ok b a (err e) h = absurd (ground (arith, h))

  leave-value :
      {A : Type 0} (v : Bool) (Q : A → Type 0) (id : String) (o : Result A × Log P) (a : A)
      → After parts ports id v Q o
      → (leave ports id o).0 ≡ ok a
      → Q a
  unfolding leave
  leave-value v Q id (ok b, log) a (q, inside) h =
      subst Q (first_error-ok b a (ports.release (release id ∷ log)) h) q
  leave-value v Q id (err e, log) a inside h = absurd (ground (arith, h))

  enter-value :
      {A : Type 0} {v : Bool} {Q : A → Type 0} (id : String) (body : Action P A) (log : Log P)
      (given : Result (Unit {0})) (a : A)
      → given ≡ ports.acquire (acquire id ∷ log)
      → AreGuarded parts ports log
      → Does parts ports id false body v Q
      → (enter ports id body given (acquire id ∷ log)).0 ≡ ok a
      → Q a
  unfolding enter is_held
  enter-value id body log (err e) a same guarded does h = absurd (ground (arith, h))
  enter-value {v} {Q} id body log (ok _) a same guarded does h =
      leave-value v Q id (body (acquire id ∷ log)) a
        (does.leaves (acquire id ∷ log) (record {
          guarded = (tt, guarded);
          held = given_to id (ports.acquire (acquire id ∷ log)) (ap passed (sym same));
          models = λ e. cc;
        }))
        h

  -- What is known of the value of the body is known of the value of the use case.
  pub with_run_lease-value :
      {A : Type 0} {v : Bool} {Q : A → Type 0} (id : String) (body : Action P A) (log : Log P)
      (a : A)
      → AreGuarded parts ports log
      → Does parts ports id false body v Q
      → (with_run_lease ports id body log).0 ≡ ok a
      → Q a
  unfolding with_run_lease
  with_run_lease-value id body log a guarded does h =
      enter-value id body log (ports.acquire (acquire id ∷ log)) a refl guarded does h
