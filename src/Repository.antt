-- ===== src/Repository.antt =====
-- src/goalrouter/repository.py: the text that Git answers. A text is the decoded output; a byte
-- that is not UTF-8, which Python keeps as a surrogate, has no place in it.
pub mod Texts
pub mod Evidence
pub mod Records
pub mod Contract
pub mod Trees
pub mod Commands
pub mod Streams
use goal_router.Common.{ℕ, String, Bool, ◌==◌, any, List, [], ◌∷◌}
use goal_router.Common.Integers.{ℤ}
use goal_router.Domain.FilePath.{FilePath}

-- `_GitIndexEntry`
pub record GitIndexEntry : Type 0 where
  pub tag : String
  pub mode : String
  pub object_id : String
  pub stage : ℤ
  pub path : FilePath

-- `_GitTreeEntry`
pub record GitTreeEntry : Type 0 where
  pub mode : String
  pub object_id : String
  pub path : FilePath

abbrev pub symlink_index_mode : String
symlink_index_mode = "120000"

abbrev pub gitlink_index_mode : String
gitlink_index_mode = "160000"

abbrev pub allowed_index_modes : List String
allowed_index_modes = "100644" ∷ "100755" ∷ symlink_index_mode ∷ gitlink_index_mode ∷ []
