-- ===== src/Domain/RoundTrip/Records.antt =====
-- domain.py: the round trips of the records inside a checkpoint. The conditions say that a record is
-- as the program builds it: paths in pathlib's form, sets as increasing lists, aware times.
use goal_router.Common.{String, List, [], ◌∷◌, map, ◌≡◌, refl, All, true}
use goal_router.Common.Integers.{ℤ}
use goal_router.Common.Strings.{IsIncreasing, sort-IsSet, frozenset-IsSet}
use goal_router.Errors.{ok}
use goal_router.Domain.Platform.{Platform, IsoInverse}
use goal_router.Domain.Json.{elements, items}
use goal_router.Domain.Enums.{
  of_value-access_mode_value, of_value-sandbox_mode_value, of_value-approval_mode_value,
  of_value-route_source_value, of_value-work_status_value,
}
use goal_router.Domain.FilePath.RoundTrip.{IsNormal, of_text-to_text}
use goal_router.Domain.Fields.{each}
use goal_router.Domain.InstructionFile
use goal_router.Domain.InstructionFile.{InstructionFile}
use goal_router.Domain.Objective
use goal_router.Domain.Objective.{Objective}
use goal_router.Domain.RepositoryContext
use goal_router.Domain.RepositoryContext.{
  RepositoryContext, instruction_of, language_count, language_count_of,
}
use goal_router.Domain.WorkItem
use goal_router.Domain.WorkItem.{WorkItem}
use goal_router.Domain.RouteDecision
use goal_router.Domain.RouteDecision.{RouteDecision}
use goal_router.Domain.WorkResult
use goal_router.Domain.WorkResult.{WorkResult}
use goal_router.Domain.ApprovalRecord
use goal_router.Domain.ApprovalRecord.{ApprovalRecord}
use goal_router.Domain.RoundTrip.Readers.{
  each-strings, map-paths, each-json_value, optional_text-optional,
}

pub record RepositoryContextIsNormal (x : RepositoryContext) : Type 0 where
  pub project : IsNormal x.project_path
  pub dirty : All IsNormal x.dirty_paths
  pub instructions : All (λ (f : InstructionFile). IsNormal f.path) x.instruction_files
  pub docker : All IsNormal x.docker_files

module _ {P : Platform} where
  pub record ObjectiveIsNormal (x : Objective P) : Type 0 where
    pub project : IsNormal x.project_path
    pub config : IsNormal x.config_path
    pub aware : P.is_aware x.created_at ≡ true

  pub record WorkItemIsNormal (x : WorkItem P) : Type 0 where
    pub paths : All IsNormal x.affected_paths
    pub flags : IsIncreasing x.risk_flags

  pub Objective-round_trip :
      (x : Objective P)
      → IsoInverse P
      → ObjectiveIsNormal x
      → Objective.from_dict (Objective.fields x) ≡ ok x
  unfolding Objective.from_dict Objective.fields
  Objective-round_trip x inverse h = simp (
    optional_text-optional P,
    of_text-to_text x.project_path h.project,
    of_text-to_text x.config_path h.config,
    inverse x.created_at,
    h.aware,
  )

  pub WorkItem-round_trip :
      (x : WorkItem P) → WorkItemIsNormal x → WorkItem.from_dict (WorkItem.fields x) ≡ ok x
  unfolding WorkItem.from_dict WorkItem.fields
  WorkItem-round_trip x h = simp (
    each-strings P,
    of_value-access_mode_value,
    map-paths x.affected_paths h.paths,
    sort-IsSet x.risk_flags h.flags,
    frozenset-IsSet x.risk_flags h.flags,
  )

  pub WorkResult-round_trip :
      (x : WorkResult P)
      → All IsNormal x.changed_paths
      → WorkResult.from_dict (WorkResult.fields x) ≡ ok x
  unfolding WorkResult.from_dict WorkResult.fields
  WorkResult-round_trip x h = simp (
    each-strings P,
    optional_text-optional P,
    of_value-work_status_value,
    each-json_value x.sdk_items,
    map-paths x.changed_paths h,
  )

  pub ApprovalRecord-round_trip :
      (x : ApprovalRecord P)
      → IsoInverse P
      → P.is_aware x.approved_at ≡ true
      → ApprovalRecord.from_dict (ApprovalRecord.fields x) ≡ ok x
  unfolding ApprovalRecord.from_dict ApprovalRecord.fields
  ApprovalRecord-round_trip x inverse aware = simp (inverse x.approved_at, aware)

module _ (P : Platform) where
  pub RouteDecision-round_trip :
      (x : RouteDecision) → RouteDecision.from_dict (RouteDecision.fields {P = P} x) ≡ ok x
  unfolding RouteDecision.from_dict RouteDecision.fields
  RouteDecision-round_trip x = simp (
    optional_text-optional P,
    of_value-sandbox_mode_value,
    of_value-approval_mode_value,
    of_value-route_source_value,
  )

  instruction_round_trip :
      (x : InstructionFile)
      → IsNormal x.path
      → instruction_of (InstructionFile.to_dict {P = P} x) ≡ ok x
  unfolding instruction_of InstructionFile.fields
  instruction_round_trip x h = simp (of_text-to_text x.path h)

  each-instruction :
      (xs : List InstructionFile)
      → All (λ (f : InstructionFile). IsNormal f.path) xs
      → each instruction_of (elements (items (map (InstructionFile.to_dict {P = P}) xs))) ≡ ok xs
  unfolding each
  each-instruction [] h = refl
  each-instruction (x ∷ xs) h = simp (instruction_round_trip x h.0, each-instruction xs h.1)

  each-language_count :
      (xs : List (String × ℤ))
      → each language_count_of (elements (items (map (language_count {P = P}) xs))) ≡ ok xs
  unfolding each language_count language_count_of
  each-language_count [] = refl
  each-language_count ((l, n) ∷ xs) = simp (each-language_count xs)

  pub RepositoryContext-round_trip :
      (x : RepositoryContext)
      → RepositoryContextIsNormal x
      → RepositoryContext.from_dict (RepositoryContext.fields {P = P} x) ≡ ok x
  unfolding RepositoryContext.from_dict RepositoryContext.fields
  RepositoryContext-round_trip x h = simp (
    each-instruction x.instruction_files h.instructions,
    each-language_count,
    each-strings P,
    optional_text-optional P,
    of_text-to_text x.project_path h.project,
    map-paths x.dirty_paths h.dirty,
    map-paths x.docker_files h.docker,
  )
