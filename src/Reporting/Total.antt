-- ===== src/Reporting/Total.antt =====
-- reporting.py: `ReportRenderer.render` on the runs that the coordinator makes.
use goal_router.Common.{String, some, ◌≡◌}
use goal_router.Common.Dict
use goal_router.Common.Dict.{Dict}
use goal_router.Domain.Platform.{Platform}
use goal_router.Domain.FilePath.{FilePath}
use goal_router.Domain.RunState.{RunState}
use goal_router.Reporting.Render.{Formats}

module _ {V : Type 0} where
  -- the key has a value
  abbrev pub IsKey : Dict V → String → Type 0
  IsKey d k = (v : V) × (Dict.get d k ≡ some v)

module _ {P : Platform} (formats : Formats P) (state : RunState P) where
  -- an item with a route
  abbrev pub IsRouted : String → Type 0
  IsRouted id = IsKey state.work_items id × IsKey state.routes id
