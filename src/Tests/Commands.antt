-- ===== src/Tests/Commands.antt =====
-- A repository without a commit, and a stream of two chunks.
use goal_router.Common.{ℕ, String, some, List, [], ◌∷◌, ◌≡◌}
use goal_router.Common.Integers.{ℤ, pos}
use goal_router.Repository.Commands.{
  CommandResult, Run, finished, IsResolved, resolve_head_tree, resolve_head_tree-IsResolved,
}
use goal_router.Repository.Streams.{
  read_bounded_stream, bounded, contents, read_bounded_stream-bounded,
}

abbrev ended : ℤ → CommandResult
ended code = record { argv = []; returncode = code; stdout = ""; stderr = "" }

abbrev show_ref : String → Run
show_ref branch = finished (ended (pos 1))

resolve_head_tree-IsResolved_example :
    IsResolved show_ref
      (finished (ended (pos 128)))
      (some "main")
      (resolve_head_tree show_ref (finished (ended (pos 128))) (some "main"))
resolve_head_tree-IsResolved_example =
    resolve_head_tree-IsResolved show_ref (finished (ended (pos 128))) (some "main")

abbrev chunks : List (List ℕ)
chunks = (104 ∷ 105 ∷ []) ∷ (10 ∷ []) ∷ [] ∷ []

read_bounded_stream-bounded_example : read_bounded_stream chunks ≡ bounded (contents chunks)
read_bounded_stream-bounded_example = read_bounded_stream-bounded chunks
