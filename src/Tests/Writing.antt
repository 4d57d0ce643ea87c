-- ===== src/Tests/Writing.antt =====
-- The scheduler's theorems at a run of one item that writes.
use goal_router.Common.{All}
use goal_router.Scheduler.{dispatchable}
use goal_router.Scheduler.Ready.{IsCleared, dispatchable-IsCleared}
use goal_router.Samples.{digest, approved}

dispatchable-IsCleared_example : All (IsCleared digest approved) (dispatchable digest approved)
dispatchable-IsCleared_example = dispatchable-IsCleared digest approved
