-- ===== src/Tests/Reports.antt =====
-- The report of a run of one item.
use goal_router.Common.Dict
use goal_router.Domain.FilePath.{FilePath}
use goal_router.Reporting.Render.{Formats}
use goal_router.Samples.{platform}

abbrev formats : Formats platform
formats = record { general = λ x. "0"; plus = λ x y. x; rstrip = λ s. s; dumps = λ j. "[]" }
