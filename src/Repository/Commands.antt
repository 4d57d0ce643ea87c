-- ===== src/Repository/Commands.antt =====
-- repository.py: the results of Git's commands. The runner, which starts a process, is a parameter:
-- a run ends with a result, a RepositoryError or the timeout.
use goal_router.Common.{
  String, Bool, true, ◌&&◌, Option, none, some, List, ◌==◌, ◌≡◌, refl, ◌⊎◌, inl, inr, if◌then◌else◌,
  Bool-cases,
}
use goal_router.Common.Integers.{ℤ, pos, eqb_ℤ}
use goal_router.Errors.{Result, ok, err, repository_error, ◌>>◌, guard}

-- `CommandResult`
pub record CommandResult : Type 0 where
  pub argv : List String
  pub returncode : ℤ
  pub stdout : String
  pub stderr : String

-- How a run of a command ends.
pub data Run : Type 0 where
  finished : (result : CommandResult) → Run
  refused : Run
  timed_out : Run

-- `_require_git_command`, on what `_capture_git_command` gives
unfoldable pub require_git_command : Run → Result CommandResult
require_git_command (finished result) = do
  guard (eqb_ℤ result.returncode (pos 0)) repository_error
  ok result
require_git_command _ = err repository_error

-- `show-ref` says that the reference does not exist
abbrev pub is_absent : CommandResult → Bool
is_absent r = eqb_ℤ r.returncode (pos 1) && r.stdout == "" && r.stderr == ""

after_show_ref : Run → Result String
after_show_ref (finished r) = if is_absent r then ok "" else err repository_error
after_show_ref _ = err repository_error

-- `outcome.returncode == 128 and not outcome.stdout`
abbrev pub is_fatal : CommandResult → Bool
is_fatal r = eqb_ℤ r.returncode (pos 128) && r.stdout == ""

-- The runs of `show-ref` for `refs/heads/{branch}`.
module _ (show_ref : String → Run) where
  unborn : CommandResult → Option String → Result String
  unfolding after_show_ref
  unborn r none = err repository_error
  unborn r (some branch) =
      if is_fatal r then after_show_ref (show_ref branch) else err repository_error

  -- `_resolve_head_tree`
  unfoldable pub resolve_head_tree : Run → Option String → Result String
  unfolding unborn
  resolve_head_tree (finished r) branch =
      if eqb_ℤ r.returncode (pos 0) then ok r.stdout else unborn r branch
  resolve_head_tree _ branch = err repository_error

-- The HEAD tree was read.
pub record IsRead (outcome : Run) (text : String) : Type 0 where
  pub result : CommandResult
  pub ends : outcome ≡ finished result
  pub succeeds : eqb_ℤ result.returncode (pos 0) ≡ true
  pub same : result.stdout ≡ text

-- There is no HEAD tree yet: reading it fails fatally and prints nothing, and the branch that is
-- checked out has no commit.
pub record IsUnborn (show_ref : String → Run) (outcome : Run) (branch : Option String)
    : Type 0 where
  pub result : CommandResult
  pub ends : outcome ≡ finished result
  pub fatal : is_fatal result ≡ true
  pub name : String
  pub on_branch : branch ≡ some name
  pub reference : CommandResult
  pub looked_up : show_ref name ≡ finished reference
  pub absent : is_absent reference ≡ true

abbrev pub IsResolved : (String → Run) → Run → Option String → Result String → Type 0
IsResolved show_ref outcome branch resolved =
    ((text : String) × IsRead outcome text × (resolved ≡ ok text))
    ⊎ (IsUnborn show_ref outcome branch × (resolved ≡ ok ""))
    ⊎ (resolved ≡ err repository_error)

module _ (show_ref : String → Run) where
  after_show_ref-cases :
      (r : CommandResult) (branch : String) (run : Run)
      → show_ref branch ≡ run
      → is_fatal r ≡ true
      → (IsUnborn show_ref (finished r) (some branch) × (after_show_ref run ≡ ok ""))
        ⊎ (after_show_ref run ≡ err repository_error)
  unfolding after_show_ref
  after_show_ref-cases r branch (finished ref) e fatal' = elim (Bool-cases (is_absent ref)) [
    | inl t ↦ inl (
      record {
        result = r;
        ends = refl;
        fatal = fatal';
        name = branch;
        on_branch = refl;
        reference = ref;
        looked_up = e;
        absent = t;
      },
      rw t refl,
    )
    | inr t ↦ inr (rw t refl)
  ]
  after_show_ref-cases r branch refused e fatal' = inr refl
  after_show_ref-cases r branch timed_out e fatal' = inr refl

  unborn-cases :
      (r : CommandResult) (branch : Option String)
      → (IsUnborn show_ref (finished r) branch × (unborn show_ref r branch ≡ ok ""))
        ⊎ (unborn show_ref r branch ≡ err repository_error)
  unfolding unborn
  unborn-cases r none = inr refl
  unborn-cases r (some branch) = elim (Bool-cases (is_fatal r)) [
    | inl e ↦ rw e (after_show_ref-cases r branch (show_ref branch) refl e)
    | inr e ↦ inr (rw e refl)
  ]

  -- The HEAD tree is what Git printed, or it is empty and the branch has no commit yet, or a
  -- RepositoryError is raised.
  pub resolve_head_tree-IsResolved :
      (outcome : Run) (branch : Option String)
      → IsResolved show_ref outcome branch (resolve_head_tree show_ref outcome branch)
  unfolding resolve_head_tree
  resolve_head_tree-IsResolved (finished r) branch =
      elim (Bool-cases (eqb_ℤ r.returncode (pos 0))) [
        | inl e ↦
            inl (r.stdout, record { result = r; ends = refl; succeeds = e; same = refl }, rw e refl)
        | inr e ↦ rw e (inr (unborn-cases r branch))
      ]
  resolve_head_tree-IsResolved refused branch = inr (inr refl)
  resolve_head_tree-IsResolved timed_out branch = inr (inr refl)
