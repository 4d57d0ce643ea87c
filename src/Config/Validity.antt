-- ===== src/Config/Validity.antt =====
-- config.py: the contract of a loaded configuration.
use mathlib.Core.Path.{subst}
use goal_router.Common.{
  String, true, false, List, [], ◌∷◌, ◌≡◌, sym, ap, ◌∙◌, All, ◌==◌, if◌then◌else◌,
}
use goal_router.Common.Dict
use goal_router.Common.Dict.{Dict, values}
use goal_router.Errors.{Result, ok, guard, guard-eq-ok, >>=-eq-ok, ok-injective}
use goal_router.Domain.Platform.{Platform}
use goal_router.Domain.Json.{JsonValue}
use goal_router.Domain.Enums.{SandboxMode, ApprovalMode, sandbox_mode_enum, approval_mode_enum}
use goal_router.Domain.Fields.{each}
use goal_router.Domain.Policy.{ModelAlias, TaskPolicy, MatchRule, HardRiskRule}
use goal_router.Config.{RouterConfig}
use goal_router.Config.Fields.{
  mapping, string, optional_string, optional_boolean, integer, enum, each_entry,
}
use goal_router.Config.Semantics.{has_optional, check_each, check_task}
use goal_router.Config.Parse.{parse_task_policy, in_mapping}

-- The references of one task, of one matching rule and of one hard-risk rule.
abbrev pub TaskRefers : Dict ModelAlias → Dict TaskPolicy → TaskPolicy → Type 0
TaskRefers aliases tasks policy =
    (Dict.has aliases policy.model_alias ≡ true) × (has_optional tasks policy.escalate_to ≡ true)

-- Every name in the configuration is the name of an entry.
pub record IsValid (config : RouterConfig) : Type 0 where
  pub default_task : Dict.has config.tasks config.default_task ≡ true
  pub planner_task : Dict.has config.tasks config.planner_task ≡ true
  pub completion_task : Dict.has config.tasks config.completion_task ≡ true
  pub tasks : All (TaskRefers config.model_aliases config.tasks) (values config.tasks)
  pub matching : All (λ (r : MatchRule). Dict.has config.tasks r.task ≡ true) config.matching
  pub hard_risk_rules :
      All
        (λ (r : HardRiskRule). has_optional config.model_aliases r.minimum_model_alias ≡ true)
        config.hard_risk_rules

module _ {A B : Type 0} (read : String → A → Result B) where
  pub each_entry-has :
      (d : Dict A) (r : Dict B)
      → each_entry read d ≡ ok r
      → (k : String) → Dict.has r k ≡ Dict.has d k
  unfolding each_entry Dict.has
  each_entry-has [] r h k = ap (λ d. Dict.has d k) (sym (ok-injective h))
  each_entry-has ((j, x) ∷ d) r h k =
      let (y, _, h1) = >>=-eq-ok (read j x) _ h in
      let (ys, rest, h2) = >>=-eq-ok (each_entry read d) _ h1 in
      ap (λ d. Dict.has d k) (sym (ok-injective h2))
      ∙ ap (λ b. if j == k then true else b) (each_entry-has d ys rest k)

  -- What the check and the reader say of each value together.
  pub each_entry-All :
      (check : A → Result (Unit {0})) (Q : B → Type 0)
      → ((k : String) (x : A) (y : B) → check x ≡ ok tt → read k x ≡ ok y → Q y)
      → (d : Dict A) (r : Dict B) → check_each check (values d) ≡ ok tt
      → each_entry read d ≡ ok r
      → All Q (values r)
  unfolding each_entry check_each
  each_entry-All check Q good [] r c h =
      subst (λ (d : Dict B). All Q (values d)) (ok-injective h) tt
  each_entry-All check Q good ((j, x) ∷ d) r c h =
      let (_, first, more) = >>=-eq-ok (check x) _ c in
      let (y, one, h1) = >>=-eq-ok (read j x) _ h in
      let (ys, rest, h2) = >>=-eq-ok (each_entry read d) _ h1 in
      subst (λ (e : Dict B). All Q (values e)) (ok-injective h2)
        (good j x y first one, each_entry-All check Q good d ys more rest)

module _ {A B : Type 0} (check : A → Result (Unit {0})) (read : A → Result B) (Q : B → Type 0) where
  pub each-All :
      ((x : A) (y : B) → check x ≡ ok tt → read x ≡ ok y → Q y)
      → (xs : List A) (ys : List B) → check_each check xs ≡ ok tt
      → each read xs ≡ ok ys
      → All Q ys
  unfolding each check_each
  each-All good [] ys c h = subst (All Q) (ok-injective h) tt
  each-All good (x ∷ xs) ys c h =
      let (_, first, more) = >>=-eq-ok (check x) _ c in
      let (y, one, h1) = >>=-eq-ok (read x) _ h in
      let (zs, rest, h2) = >>=-eq-ok (each read xs) _ h1 in
      subst (All Q) (ok-injective h2) (good x y first one, each-All good xs zs more rest)

-- Two readings of one field are one.
pub same_value : {A : Type 0} (r : Result A) {a b : A} → r ≡ ok a → r ≡ ok b → a ≡ b
same_value r h k = ok-injective (sym h ∙ k)

module _ {P : Platform} where
  policy_fields :
      (name : String) (raw : Dict (JsonValue P)) (policy : TaskPolicy)
      → parse_task_policy name raw ≡ ok policy
      → (string raw "model-alias" ≡ ok policy.model_alias)
        × (optional_string raw "escalate-to" ≡ ok policy.escalate_to)
  unfolding parse_task_policy
  policy_fields name raw policy h =
      let (_, _, h1) = >>=-eq-ok (string raw "description") _ h in
      let (alias, read_alias, h2) = >>=-eq-ok (string raw "model-alias") _ h1 in
      let (sandbox_raw, _, h3) = >>=-eq-ok (string raw "sandbox") _ h2 in
      let (_, _, h4) = >>=-eq-ok (enum {E = SandboxMode} sandbox_raw) _ h3 in
      let (approval_raw, _, h5) = >>=-eq-ok (string raw "approval") _ h4 in
      let (_, _, h6) = >>=-eq-ok (enum {E = ApprovalMode} approval_raw) _ h5 in
      let (_, _, h7) = >>=-eq-ok (integer raw "timeout-seconds") _ h6 in
      let (_, _, h8) = >>=-eq-ok (integer raw "max-attempts") _ h7 in
      let (_, _, h9) = >>=-eq-ok (optional_boolean raw "destructive" false) _ h8 in
      let (_, _, h10) = >>=-eq-ok (optional_boolean raw "external-write" false) _ h9 in
      let (escalation, read_escalation, h11) =
        >>=-eq-ok (optional_string raw "escalate-to") _ h10 in
      let e = ok-injective h11 in
      (
        read_alias ∙ ap (λ (p : TaskPolicy). ok p.model_alias) e,
        read_escalation ∙ ap (λ (p : TaskPolicy). ok p.escalate_to) e,
      )

  pub task_refers :
      (aliases tasks : Dict (JsonValue P)) (k : String) (x : JsonValue P) (policy : TaskPolicy)
      → check_task aliases tasks x ≡ ok tt
      → in_mapping (parse_task_policy k) x ≡ ok policy
      → (Dict.has aliases policy.model_alias ≡ true)
        × (has_optional tasks policy.escalate_to ≡ true)
  unfolding check_task
  task_refers aliases tasks k x policy c h =
      let (raw, found, parsed) = >>=-eq-ok (mapping x) (parse_task_policy k) h in
      let (raw', found', c1) = >>=-eq-ok (mapping x) _ c in
      let (alias, read_alias, c2) = >>=-eq-ok (string raw' "model-alias") _ c1 in
      let (_, known, c3) = >>=-eq-ok (guard (Dict.has aliases alias) _) _ c2 in
      let (escalation, read_escalation, c4) = >>=-eq-ok (optional_string raw' "escalate-to") _ c3 in
      let (f, g) = policy_fields k raw policy parsed in
      let same = same_value (mapping x) found' found in
      let f' =
        same_value (string raw "model-alias")
          (ap (λ (r : Dict (JsonValue P)). string r "model-alias") (sym same) ∙ read_alias) f in
      let g' =
        same_value (optional_string raw "escalate-to")
          (ap (λ (r : Dict (JsonValue P)). optional_string r "escalate-to") (sym same)
            ∙ read_escalation)
          g in
      (
        ap (Dict.has aliases) (sym f') ∙ guard-eq-ok _ _ known,
        ap (has_optional tasks) (sym g') ∙ guard-eq-ok _ _ c4,
      )
