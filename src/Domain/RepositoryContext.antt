-- ===== src/Domain/RepositoryContext.antt =====
-- src/goalrouter/domain.py: `RepositoryContext`, its JSON object and the object read back.
use goal_router.Common.{String, Bool, Option, List, map, [], ◌∷◌}
use goal_router.Common.Integers.{ℤ}
use goal_router.Common.Dict.{Dict}
use goal_router.Errors.{Result, ok, ◌>>=◌}
use goal_router.Domain.Platform.{Platform}
use goal_router.Domain.Json.{JsonValue, str, bool, int, list, dict}
use goal_router.Domain.FilePath
use goal_router.Domain.FilePath.{FilePath}
use goal_router.Domain.Fields.{
  string, optional_string, boolean, integer, sequence, mapping, strings, each,
}
use goal_router.Domain.Encoding.{optional, string_list, path_list, file_path, file_paths}
use goal_router.Domain.InstructionFile
use goal_router.Domain.InstructionFile.{InstructionFile}

pub record RepositoryContext : Type 0 where
  pub project_path : FilePath
  pub is_git_worktree : Bool
  pub branch : Option String
  pub dirty_paths : List FilePath
  pub instruction_files : List InstructionFile
  pub language_counts : List (String × ℤ)
  pub docker_files : List FilePath
  pub command_errors : List String

module _ {P : Platform} where
  unfoldable pub language_count : String × ℤ → JsonValue P
  language_count (language, count) = dict (("language", str language) ∷ ("count", int count) ∷ [])

  unfoldable pub language_count_of : JsonValue P → Result (String × ℤ)
  unfolding mapping string integer
  language_count_of item = do
    d ← mapping item
    language ← string d "language"
    d' ← mapping item
    count ← integer d' "count"
    ok (language, count)

  unfoldable pub instruction_of : JsonValue P → Result InstructionFile
  unfolding mapping InstructionFile.from_dict
  instruction_of item = do d ← mapping item; InstructionFile.from_dict d

  instructions : Dict (JsonValue P) → Result (List InstructionFile)
  unfolding sequence
  instructions value = do xs ← sequence value "instruction_files"; each instruction_of xs

  language_counts_of : Dict (JsonValue P) → Result (List (String × ℤ))
  unfolding sequence
  language_counts_of value = do xs ← sequence value "language_counts"; each language_count_of xs

unfoldable pub fields : {P : Platform} → RepositoryContext → Dict (JsonValue P)
fields x =
    ("project_path", str (FilePath.to_text x.project_path))
    ∷ ("is_git_worktree", bool x.is_git_worktree)
    ∷ ("branch", optional x.branch)
    ∷ ("dirty_paths", path_list x.dirty_paths)
    ∷ ("instruction_files", list (map InstructionFile.to_dict x.instruction_files))
    ∷ ("language_counts", list (map language_count x.language_counts))
    ∷ ("docker_files", path_list x.docker_files)
    ∷ ("command_errors", string_list x.command_errors)
    ∷ []

abbrev pub to_dict : {P : Platform} → RepositoryContext → JsonValue P
to_dict x = dict (fields x)

unfoldable pub from_dict : {P : Platform} → Dict (JsonValue P) → Result RepositoryContext
unfolding boolean file_path file_paths instructions language_counts_of optional_string strings
from_dict value = do
  instruction_files' ← instructions value
  language_counts' ← language_counts_of value
  project_path' ← file_path value "project_path"
  is_git_worktree' ← boolean value "is_git_worktree"
  branch' ← optional_string value "branch"
  dirty_paths' ← file_paths value "dirty_paths"
  docker_files' ← file_paths value "docker_files"
  command_errors' ← strings value "command_errors"
  ok (record {
    project_path = project_path';
    is_git_worktree = is_git_worktree';
    branch = branch';
    dirty_paths = dirty_paths';
    instruction_files = instruction_files';
    language_counts = language_counts';
    docker_files = docker_files';
    command_errors = command_errors';
  })
