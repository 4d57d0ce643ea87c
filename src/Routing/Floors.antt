-- ===== src/Routing/Floors.antt =====
-- The constraints that the hard-risk rules put on a route, and the alias that meets them.
use mathlib.Core.Path.{subst}
use goal_router.Common.{
  ◌↔◌, if◌then◌else◌, String, Bool, true, false, some, List, [], ◌∷◌, ◌≡◌, refl, sym, ap, ◌∙◌, ◌⊎◌,
  inl, inr, All, In, In-filter, filter-In, arith, Bool-cases, Option-cases,
}
use goal_router.Common.Integers.{ℤ, ◌≤ℤ◌, leb_ℤ, leb→≤ℤ, leb→≥ℤ, ≤ℤ-trans, ≤ℤ-refl}
use goal_router.Common.Dict
use goal_router.Common.Dict.{values}
use goal_router.Errors.{ok, >>=-eq-ok, ok-injective}
use goal_router.Domain.Enums.{ApprovalMode}
use goal_router.Domain.Policy.{ModelAlias, HardRiskRule}
use goal_router.Config.{RouterConfig}
use goal_router.Routing.{Constraints, apply_rule, apply_rules, min_rank, select_alias, candidates}

-- The rank meets the floor of a rule, if the rule is active and has one.
pub record Covers (config : RouterConfig) (active : String → Bool) (rank : ℤ) (rule : HardRiskRule)
    : Type 0 where
  pub floor :
      active rule.flag ≡ true
      → (name : String) (a : ModelAlias) → rule.minimum_model_alias ≡ some name
      → Dict.get config.model_aliases name ≡ some a
      → a.rank ≤ℤ rank

-- An active rule asks for approval.
abbrev pub Demands : (String → Bool) → HardRiskRule → Type 0
Demands active rule = (active rule.flag ≡ true) × (rule.approval ≡ some ApprovalMode.required)

-- Some active rule of the list asks for approval.
abbrev pub SomeDemands : (String → Bool) → List HardRiskRule → Type 0
SomeDemands active [] = ⊥
SomeDemands active (rule ∷ rules) = Demands active rule ⊎ SomeDemands active rules

module _ (config : RouterConfig) where
  -- one rule
  apply_rule-mono :
      (rule : HardRiskRule) (c c' : Constraints)
      → apply_rule config rule c ≡ ok c'
      → c.minimum_rank ≤ℤ c'.minimum_rank
  unfolding apply_rule
  apply_rule-mono rule c c' h = ground arith

  apply_rule-Covers :
      (active : String → Bool) (rule : HardRiskRule) (c c' : Constraints)
      → apply_rule config rule c ≡ ok c'
      → Covers config active c'.minimum_rank rule
  unfolding apply_rule
  apply_rule-Covers active rule c c' h = record { floor = λ on name a e g. ground arith }

  apply_rule-approval :
      (rule : HardRiskRule) (c c' : Constraints)
      → apply_rule config rule c ≡ ok c'
      → ((c.approval ≡ ApprovalMode.required) ⊎ (rule.approval ≡ some ApprovalMode.required)
          → c'.approval ≡ ApprovalMode.required)
        × (c'.approval ≡ ApprovalMode.required
            → (c.approval ≡ ApprovalMode.required) ⊎ (rule.approval ≡ some ApprovalMode.required))
  unfolding apply_rule
  apply_rule-approval rule c c' h = (ground arith, ground arith)

  apply_rule-least :
      (rule : HardRiskRule) (c m : Constraints) (r : ℤ)
      → apply_rule config rule c ≡ ok m
      → c.minimum_rank ≤ℤ r
      → ((name : String) (a : ModelAlias)
          → rule.minimum_model_alias ≡ some name
          → Dict.get config.model_aliases name ≡ some a
          → a.rank ≤ℤ r)
      → m.minimum_rank ≤ℤ r
  unfolding apply_rule
  apply_rule-least rule c m r e h floor = elim (Option-cases rule.minimum_model_alias) [
    | inl p ↦ ground arith
    | inr (name, p) ↦ elim (Option-cases (Dict.get config.model_aliases name)) [
      | inl q ↦ ground arith
      | inr (a, q) ↦ ground (arith, floor name a p q)
    ]
  ]

  module _ (active : String → Bool) where
    -- What one turn of the loop does, whether or not the rule is active.
    turn :
        (rule : HardRiskRule) (rules : List HardRiskRule) (c c' : Constraints)
        → apply_rules config active (rule ∷ rules) c ≡ ok c'
        → (m : Constraints) × ((active rule.flag ≡ true) × (apply_rule config rule c ≡ ok m)
            ⊎ (active rule.flag ≡ false) × (m ≡ c))
          × (apply_rules config active rules m ≡ ok c')
    unfolding apply_rules
    turn rule rules c c' h = elim (Bool-cases (active rule.flag)) [
      | inl on ↦
          let (m, e, rest) =
            >>=-eq-ok (apply_rule config rule c) (apply_rules config active rules) (rw on at h) in
          (m, inl (on, e), rest)
      | inr off ↦ (c, inr (off, refl), rw off at h)
    ]

    turn-mono :
        (rule : HardRiskRule) (c m : Constraints)
        → ((active rule.flag ≡ true) × (apply_rule config rule c ≡ ok m)
            ⊎ (active rule.flag ≡ false) × (m ≡ c))
        → c.minimum_rank ≤ℤ m.minimum_rank
    turn-mono rule c m (inl (on, e)) = apply_rule-mono rule c m e
    turn-mono rule c m (inr (off, e)) =
        subst (λ n. c.minimum_rank ≤ℤ n.minimum_rank) (sym e) (≤ℤ-refl c.minimum_rank)

    pub rules-mono :
        (rules : List HardRiskRule) (c c' : Constraints)
        → apply_rules config active rules c ≡ ok c'
        → c.minimum_rank ≤ℤ c'.minimum_rank
    unfolding apply_rules
    rules-mono [] c c' h = ground arith
    rules-mono (rule ∷ rules) c c' h =
        let (m, first, rest) = turn rule rules c c' h in
        ≤ℤ-trans c.minimum_rank m.minimum_rank c'.minimum_rank (turn-mono rule c m first)
          (rules-mono rules m c' rest)

    Covers-mono :
        (rule : HardRiskRule) (a b : ℤ)
        → a ≤ℤ b
        → Covers config active a rule
        → Covers config active b rule
    Covers-mono rule a b h k = record {
      floor = λ on name x e g. ≤ℤ-trans x.rank a b (k.floor on name x e g) h;
    }

    pub All-Covers :
        (a b : ℤ)
        → a ≤ℤ b
        → (rules : List HardRiskRule) → All (Covers config active a) rules
        → All (Covers config active b) rules
    All-Covers a b h [] k = tt
    All-Covers a b h (rule ∷ rules) k = (Covers-mono rule a b h k.0, All-Covers a b h rules k.1)

    -- Every active rule's floor is met at the end of the loop.
    pub rules-cover :
        (rules : List HardRiskRule) (c c' : Constraints)
        → apply_rules config active rules c ≡ ok c'
        → All (Covers config active c'.minimum_rank) rules
    rules-cover [] c c' h = tt
    rules-cover (rule ∷ rules) c c' h =
        let (m, first, rest) = turn rule rules c c' h in
        (
          elim first [
            | inl (on, e) ↦
                Covers-mono rule m.minimum_rank c'.minimum_rank (rules-mono rules m c' rest)
                  (apply_rule-Covers active rule c m e)
            | inr (off, e) ↦ record { floor = λ on name x p g. cc }
          ],
          rules-cover rules m c' rest,
        )

    turn-least :
        (rule : HardRiskRule) (c m : Constraints) (r : ℤ)
        → ((active rule.flag ≡ true) × (apply_rule config rule c ≡ ok m)
            ⊎ (active rule.flag ≡ false) × (m ≡ c))
        → c.minimum_rank ≤ℤ r
        → Covers config active r rule
        → m.minimum_rank ≤ℤ r
    turn-least rule c m r (inl (on, e)) h k = apply_rule-least rule c m r e h (k.floor on)
    turn-least rule c m r (inr (off, e)) h k = subst (λ n. n.minimum_rank ≤ℤ r) (sym e) h

    -- The loop raises the rank no further than the rules ask.
    pub rules-least :
        (rules : List HardRiskRule) (c c' : Constraints) (r : ℤ)
        → apply_rules config active rules c ≡ ok c'
        → c.minimum_rank ≤ℤ r
        → All (Covers config active r) rules
        → c'.minimum_rank ≤ℤ r
    unfolding apply_rules
    rules-least [] c c' r h low k = ground arith
    rules-least (rule ∷ rules) c c' r h low k =
        let (m, first, rest) = turn rule rules c c' h in
        rules-least rules m c' r rest (turn-least rule c m r first low k.0) k.1

    turn-approval :
        (rule : HardRiskRule) (c m : Constraints)
        → ((active rule.flag ≡ true) × (apply_rule config rule c ≡ ok m)
            ⊎ (active rule.flag ≡ false) × (m ≡ c))
        → (m.approval ≡ ApprovalMode.required)
          ↔ ((c.approval ≡ ApprovalMode.required) ⊎ Demands active rule)
    turn-approval rule c m (inl (on, e)) = ground (arith, apply_rule-approval rule c m e)
    turn-approval rule c m (inr (off, e)) = ground (arith, ap (λ (n : Constraints). n.approval) e)

    -- Approval is required in the end exactly if it was before or some active rule demands it.
    pub rules-approval :
        (rules : List HardRiskRule) (c c' : Constraints)
        → apply_rules config active rules c ≡ ok c'
        → (c'.approval ≡ ApprovalMode.required)
          ↔ ((c.approval ≡ ApprovalMode.required) ⊎ SomeDemands active rules)
    unfolding apply_rules
    rules-approval [] c c' h = (ground arith, ground arith)
    rules-approval (rule ∷ rules) c c' h =
        let (m, first, rest) = turn rule rules c c' h in
        ground (arith, turn-approval rule c m first, rules-approval rules m c' rest)

-- The alias is in the list, and no rank of the list is below its rank.
abbrev pub IsLeastOf : ModelAlias → List ModelAlias → Type 0
IsLeastOf m xs = All (λ (a : ModelAlias). m.rank ≤ℤ a.rank) xs × In m xs

least-step :
    (m best a : ModelAlias) (rest : List ModelAlias) (first : ModelAlias)
    → (first ≡ best) × (best.rank ≤ℤ a.rank) ⊎ (first ≡ a) × (a.rank ≤ℤ best.rank)
    → IsLeastOf m (first ∷ rest)
    → IsLeastOf m (best ∷ a ∷ rest)
least-step m best a rest first (inl (e, h)) ((low, more), at) = (
  (
    ground (arith, ap (λ (x : ModelAlias). x.rank) e),
    (ground (arith, ap (λ (x : ModelAlias). x.rank) e), more),
  ),
  elim at [ inl p ↦ inl (sym e ∙ p) | inr q ↦ inr (inr q) ],
)
least-step m best a rest first (inr (e, h)) ((low, more), at) = (
  (
    ground (arith, ap (λ (x : ModelAlias). x.rank) e),
    (ground (arith, ap (λ (x : ModelAlias). x.rank) e), more),
  ),
  elim at [ inl p ↦ inr (inl (sym e ∙ p)) | inr q ↦ inr (inr q) ],
)

first_cases :
    (best a : ModelAlias)
    → ((if leb_ℤ best.rank a.rank then best else a) ≡ best) × (best.rank ≤ℤ a.rank)
      ⊎ ((if leb_ℤ best.rank a.rank then best else a) ≡ a) × (a.rank ≤ℤ best.rank)
first_cases best a = elim (Bool-cases (leb_ℤ best.rank a.rank)) [
  | inl e ↦ inl (rw e refl, leb→≤ℤ best.rank a.rank e)
  | inr e ↦ inr (rw e refl, leb→≥ℤ best.rank a.rank e)
]

min_rank-IsLeastOf :
    (best : ModelAlias) (rest : List ModelAlias) → IsLeastOf (min_rank best rest) (best ∷ rest)
unfolding min_rank
min_rank-IsLeastOf best [] = ((≤ℤ-refl best.rank, tt), inl refl)
min_rank-IsLeastOf best (a ∷ rest) =
    least-step _ best a rest _ (first_cases best a)
      (min_rank-IsLeastOf (if leb_ℤ best.rank a.rank then best else a) rest)

-- The selected alias is a candidate with the least rank among the candidates.
pub select_alias-IsLeastOf :
    (xs : List ModelAlias) (m : ModelAlias) → select_alias xs ≡ ok m → IsLeastOf m xs
unfolding select_alias
select_alias-IsLeastOf [] m h = cc
select_alias-IsLeastOf (x ∷ xs) m h =
    subst (λ k. IsLeastOf k (x ∷ xs)) (ok-injective h) (min_rank-IsLeastOf x xs)

pub candidates-In :
    (config : RouterConfig) (r : ℤ) (a : ModelAlias)
    → In a (candidates config r)
    → In a (values config.model_aliases) × (r ≤ℤ a.rank)
unfolding candidates
candidates-In config r a m =
    let (i, t) = In-filter (λ (b : ModelAlias). leb_ℤ r b.rank) a (values config.model_aliases) m in
    (i, leb→≤ℤ r a.rank t)

pub In-candidates :
    (config : RouterConfig) (r : ℤ) (a : ModelAlias)
    → In a (values config.model_aliases)
    → r ≤ℤ a.rank
    → In a (candidates config r)
unfolding candidates
In-candidates config r a i h =
    filter-In (λ (b : ModelAlias). leb_ℤ r b.rank) a (values config.model_aliases) i (ground arith)
