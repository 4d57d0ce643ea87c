-- ===== src/Tests/Leases.antt =====
-- A lease around a body that computes a number, on a system where every call succeeds.
use goal_router.Common.{◌≡◌, refl}
use goal_router.Errors.{ok, err, project_busy_error, run_busy_error}
use goal_router.Locking.Progress.{working, leases-end}
use goal_router.Common.{ℕ, false, List, []}
use goal_router.Errors.{ok}
use goal_router.Locking.{Call, Answer, World}
use goal_router.Locking.Leases.{Outcome, project_lease, run_lease}
use goal_router.Locking.Balance.{IsBounded, Adds, Adds-refl}
use goal_router.Locking.Protocol.{RunsLocked, leases-Adds, run_lease-RunsLocked}

abbrev answers : List Call → Call → Answer
answers calls call = Answer.done

abbrev start : World
start = record { opened = λ k. false; held = λ k. false; next = 3; calls = [] }

start-IsBounded : IsBounded start
start-IsBounded = record { opened = λ k h. cc; held = λ k h. cc }

abbrev body : World → Outcome ℕ
body w = (w, ok 7)

leases-Adds_example :
    Adds [] start (project_lease answers body start).0
    × Adds [] start (run_lease answers body start).0
leases-Adds_example = leases-Adds answers body (λ w h. Adds-refl w) start start-IsBounded

run_lease-RunsLocked_example : RunsLocked body start (run_lease answers body start)
run_lease-RunsLocked_example = run_lease-RunsLocked answers body start start-IsBounded

leases-end_example :
    ((project_lease (working Answer.done) body start).1 ≡ ok 7)
    × ((run_lease (working Answer.done) body start).1 ≡ ok 7)
    × ((project_lease (working Answer.busy) body start).1 ≡ err project_busy_error)
    × ((run_lease (working Answer.busy) body start).1 ≡ err run_busy_error)
leases-end_example = leases-end body start 7 (λ w1. refl)
