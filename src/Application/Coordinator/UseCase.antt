-- ===== src/Application/Coordinator/UseCase.antt =====
-- application.py: the public methods of `GoalRouterApplication`, as calls.
use goal_router.Common.{String, Option, List, Bool}
use goal_router.Domain.FilePath.{FilePath}

-- A use case, with its arguments.
pub data UseCase : Type 0 where
  models : UseCase
  route_task : (task prompt : String) (affected_paths : List FilePath) → UseCase
  plan_objective : (project_path : FilePath) (prompt : String) (run_id : Option String) → UseCase
  run_task :
      (project_path : FilePath) (task prompt : String) (affected_paths : List FilePath)
      (run_id : Option String)
      → UseCase
  run_objective : (project_path : FilePath) (prompt : String) (run_id : Option String) → UseCase
  approve : (run_id work_item_id approved_by : String) → UseCase
  resume : (run_id : String) (acknowledge : Bool) → UseCase
  status : (run_id : String) → UseCase
  report : (run_id : String) → UseCase
