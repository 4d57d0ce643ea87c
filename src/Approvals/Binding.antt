-- ===== src/Approvals/Binding.antt =====
-- approvals.py: the relation between an approval and what it was given for.
use mathlib.Core.Path.{subst}
use goal_router.Common.{
  String, ◌≡◌, refl, ap, sym, ◌∙◌, ◌↔◌, ◌⊎◌, inl, inr, some, some-injective, arith, Option-cases,
  eq_iff, eq_refl,
}
use goal_router.Common.Dict
use goal_router.Common.Dict.{get-put}
use goal_router.Errors.{
  Result, ok, err, Error, approval_required_error, ◌>>=◌, >>=-eq-ok, ok-injective,
}
use goal_router.Domain.Platform.{Platform}
use goal_router.Domain.Json.{JsonValue, entries-members}
use goal_router.Domain.Enums.{ApprovalMode, automatic, required}
use goal_router.Domain.Fields.{string, field_mapping, mapping}
use goal_router.Domain.WorkItem
use goal_router.Domain.WorkItem.{WorkItem}
use goal_router.Domain.RouteDecision
use goal_router.Domain.RouteDecision.{RouteDecision}
use goal_router.Domain.ApprovalRecord.{ApprovalRecord}
use goal_router.Domain.RunState.{RunState, run_id}
use goal_router.Domain.RoundTrip.Records.{
  WorkItemIsNormal, WorkItem-round_trip, RouteDecision-round_trip,
}
use goal_router.Approvals.{require_item_and_route, payload, approve, require_dispatchable}

ApprovalMode-cases : (a : ApprovalMode) → (a ≡ automatic) ⊎ (a ≡ required)
ApprovalMode-cases automatic = inl refl
ApprovalMode-cases required = inr refl

module _ {P : Platform} where
  -- Reads a payload back.
  unpack : JsonValue P → Result (String × RouteDecision × WorkItem P)
  unfolding mapping string field_mapping
  unpack j = do
    d ← mapping j
    text ← string d "configuration_digest"
    r ← field_mapping d "route"
    route ← RouteDecision.from_dict r
    w ← field_mapping d "work_item"
    item ← WorkItem.from_dict w
    ok (text, route, item)

  unpack-payload :
      (text : String) (item : WorkItem P) (route : RouteDecision)
      → WorkItemIsNormal item
      → unpack (payload text item route) ≡ ok (text, route, item)
  unfolding unpack payload
  unpack-payload text item route h =
      simp (entries-members, RouteDecision-round_trip P, WorkItem-round_trip item h)

  -- The payload determines what it is made of.
  payload-injective :
      (s t : String) (i j : WorkItem P) (q r : RouteDecision)
      → WorkItemIsNormal i
      → WorkItemIsNormal j
      → payload s i q ≡ payload t j r
      → (s ≡ t) × (q ≡ r) × (i ≡ j)
  payload-injective s t i j q r hi hj e =
      let pair : (s, q, i) ≡ (t, r, j) =
        ok-injective (sym (unpack-payload s i q hi) ∙ ap unpack e ∙ unpack-payload t j r hj) in
      (
        ap (λ (p : String × RouteDecision × WorkItem P). p.0) pair,
        ap (λ (p : String × RouteDecision × WorkItem P). p.1) pair,
        ap (λ (p : String × RouteDecision × WorkItem P). p.2) pair,
      )

module _ {P : Platform} (digest : JsonValue P → String) where
  -- The item may be dispatched: it is routed, and its route needs no approval or the stored approval
  -- names this run, this configuration and the digest of this item and route.
  pub record IsDispatchable (state : RunState P) (id : String) : Type 0 where
    pub item : WorkItem P
    pub route : RouteDecision
    pub has_item : Dict.get state.work_items id ≡ some item
    pub has_route : Dict.get state.routes id ≡ some route
    pub approved :
        (route.approval ≡ automatic)
        ⊎ ((r : ApprovalRecord P) × (Dict.get state.approvals id ≡ some r)
            × (r.run_id ≡ run_id state)
            × (r.configuration_digest ≡ state.configuration_digest)
            × (r.fingerprint ≡ digest (payload state.configuration_digest item route)))

  routed :
      (state : RunState P) (id : String) {p : WorkItem P × RouteDecision}
      → require_item_and_route state id ≡ ok p
      → (Dict.get state.work_items id ≡ some p.0) × (Dict.get state.routes id ≡ some p.1)
  unfolding require_item_and_route
  routed state id h = (ground arith, ground arith)

  module _ (state : RunState P) (id : String) (item : WorkItem P) (route : RouteDecision)
      (has_item : Dict.get state.work_items id ≡ some item)
      (has_route : Dict.get state.routes id ≡ some route) where
    abbrev text : String
    text = digest (payload state.configuration_digest item route)

    abbrev Matches : ApprovalRecord P → Type 0
    Matches r =
        (Dict.get state.approvals id ≡ some r)
        × (r.run_id ≡ run_id state)
        × (r.configuration_digest ≡ state.configuration_digest)
        × (r.fingerprint ≡ text)

    sound_required :
        route.approval ≡ required
        → require_dispatchable digest state id ≡ ok tt
        → (r : ApprovalRecord P) × Matches r
    unfolding require_dispatchable
    sound_required ask h = elim (Option-cases (Dict.get state.approvals id)) [
      | inl none_ ↦ absurd (ground arith)
      | inr (r, some_) ↦ (
        r,
        (
          some_,
          ground (arith, eq_iff r.run_id (run_id state)),
          ground (arith, eq_iff r.configuration_digest state.configuration_digest),
          ground (arith, eq_iff r.fingerprint text),
        ),
      )
    ]

    complete_required :
        (r : ApprovalRecord P)
        → route.approval ≡ required
        → Matches r
        → require_dispatchable digest state id ≡ ok tt
    unfolding require_dispatchable
    complete_required r ask (stored, run, config, same) = ground (
      arith,
      eq_iff r.run_id (run_id state),
      eq_iff r.configuration_digest state.configuration_digest,
      eq_iff r.fingerprint text,
    )

    complete_automatic : route.approval ≡ automatic → require_dispatchable digest state id ≡ ok tt
    unfolding require_dispatchable
    complete_automatic free = ground arith

  IsDispatchable-sound :
      (state : RunState P) (id : String)
      → require_dispatchable digest state id ≡ ok tt
      → IsDispatchable state id
  unfolding require_dispatchable
  IsDispatchable-sound state id h =
      let (pair, split, _) = >>=-eq-ok (require_item_and_route state id) _ h in
      let (has_item, has_route) = routed state id split in
      record {
        item = pair.0;
        route = pair.1;
        has_item = has_item;
        has_route = has_route;
        approved = elim (ApprovalMode-cases pair.1.approval) [
          | inl free ↦ inl free
          | inr ask ↦
              let (r, m) = sound_required state id pair.0 pair.1 has_item has_route ask h in
              inr (r, m.0, m.1, m.2, m.3)
        ];
      }

  IsDispatchable-complete :
      (state : RunState P) (id : String)
      → IsDispatchable state id
      → require_dispatchable digest state id ≡ ok tt
  IsDispatchable-complete state id h = elim (ApprovalMode-cases h.route.approval) [
    | inl free ↦ complete_automatic state id h.item h.route h.has_item h.has_route free
    | inr ask ↦ elim h.approved [
      | inl free ↦ absurd (cc (free, ask))
      | inr (r, stored, run, config, same) ↦
          complete_required state id h.item h.route h.has_item h.has_route r ask
            (stored, run, config, same)
    ]
  ]

  -- Work is let through exactly if it is routed and its route needs no approval or is approved by a
  -- record of this run and configuration with the digest of the present item and route.
  pub require_dispatchable_iff :
      (state : RunState P) (id : String)
      → (require_dispatchable digest state id ≡ ok tt) ↔ IsDispatchable state id
  require_dispatchable_iff state id =
      (IsDispatchable-sound state id, IsDispatchable-complete state id)

  -- Every refusal is an ApprovalRequiredError, the error that the scheduler passes over.
  pub require_dispatchable-error :
      (state : RunState P) (id : String) (e : Error)
      → require_dispatchable digest state id ≡ err e
      → e ≡ approval_required_error
  unfolding require_dispatchable
  require_dispatchable-error state id e h = ground arith

  -- What a successful approval records.
  pub record IsApproved (state : RunState P) (id : String) (r : ApprovalRecord P)
      (next : RunState P) : Type 0 where
    pub item : WorkItem P
    pub route : RouteDecision
    pub has_item : Dict.get state.work_items id ≡ some item
    pub has_route : Dict.get state.routes id ≡ some route
    pub stored : next ≡ record state { approvals = Dict.put state.approvals id r }
    pub run : r.run_id ≡ run_id state
    pub configuration : r.configuration_digest ≡ state.configuration_digest
    pub bound : r.fingerprint ≡ digest (payload state.configuration_digest item route)

  approve-IsApproved :
      (state : RunState P) (id by : String) (t : P.Datetime) {r : ApprovalRecord P}
      {next : RunState P}
      → approve digest state id by t ≡ ok (r, next)
      → IsApproved state id r next
  unfolding approve
  approve-IsApproved state id by t h = elim (Option-cases (Dict.get state.work_items id)) [
    | inl p ↦ absurd (ground arith)
    | inr (item, p) ↦ elim (Option-cases (Dict.get state.routes id)) [
      | inl q ↦ absurd (ground arith)
      | inr (route, q) ↦ record {
        item = item;
        route = route;
        has_item = p;
        has_route = q;
        stored = ground arith;
        run = ground arith;
        configuration = ground arith;
        bound = ground arith;
      }
    ]
  ]

  approved-IsDispatchable :
      (state : RunState P) (id : String) {r : ApprovalRecord P} {next : RunState P}
      → IsApproved state id r next
      → IsDispatchable (record state { approvals = Dict.put state.approvals id r }) id
  approved-IsDispatchable state id {r} a = record {
    item = a.item;
    route = a.route;
    has_item = a.has_item;
    has_route = a.has_route;
    approved = inr (
      r,
      get-put state.approvals id id r ∙ rw (eq_refl id) refl,
      a.run,
      a.configuration,
      a.bound,
    );
  }

  -- In the state that a successful `approve` returns, the item passes, whatever its route asks.
  pub approve-IsDispatchable :
      (state : RunState P) (id by : String) (t : P.Datetime) {r : ApprovalRecord P}
      {next : RunState P}
      → approve digest state id by t ≡ ok (r, next)
      → require_dispatchable digest next id ≡ ok tt
  approve-IsDispatchable state id by t h =
      let a = approve-IsApproved state id by t h in
      IsDispatchable-complete _ id
        (subst (λ n. IsDispatchable n id) (sym a.stored) (approved-IsDispatchable state id a))

  -- If a record was given by `approve` for an item, a later state still stores it under the same id,
  -- the later route asks for approval, both items have normal paths and flags, and the digest tells the
  -- two payloads apart, then the later state passes only with the same configuration digest, route,
  -- item and run.
  pub approval_is_bound :
      (state later : RunState P) (id by : String) (t : P.Datetime) {r : ApprovalRecord P}
      {next : RunState P} (i j : WorkItem P) (q s : RouteDecision)
      → approve digest state id by t ≡ ok (r, next)
      → (Dict.get state.work_items id ≡ some i) × (Dict.get state.routes id ≡ some q)
      → (Dict.get later.work_items id ≡ some j) × (Dict.get later.routes id ≡ some s)
      → Dict.get later.approvals id ≡ some r
      → s.approval ≡ required
      → WorkItemIsNormal i × WorkItemIsNormal j
      → (digest (payload state.configuration_digest i q)
            ≡ digest (payload later.configuration_digest j s)
          → payload state.configuration_digest i q ≡ payload later.configuration_digest j s)
      → require_dispatchable digest later id ≡ ok tt
      → (state.configuration_digest ≡ later.configuration_digest)
        × (q ≡ s)
        × (i ≡ j)
        × (run_id state ≡ run_id later)
  approval_is_bound state later id by t {r} i j q s h (hi, hq) (hj, hs) kept ask (ni, nj) apart
        pass =
      let a = approve-IsApproved state id by t h in
      let (r', m) = sound_required later id j s hj hs ask pass in
      let same_record : r' ≡ r = some-injective (sym m.0 ∙ kept) in
      let same_item : a.item ≡ i = some-injective (sym a.has_item ∙ hi) in
      let same_route : a.route ≡ q = some-injective (sym a.has_route ∙ hq) in
      let given : r.fingerprint ≡ digest (payload state.configuration_digest i q) =
        a.bound ∙ (λ n. digest (payload state.configuration_digest (same_item n) (same_route n))) in
      let shown : r.fingerprint ≡ digest (payload later.configuration_digest j s) =
        ap (λ (x : ApprovalRecord P). x.fingerprint) (sym same_record) ∙ m.3 in
      let (c, e, f) = payload-injective _ _ i j q s ni nj (apart (sym given ∙ shown)) in
      (c, e, f, sym a.run ∙ ap (λ (x : ApprovalRecord P). x.run_id) (sym same_record) ∙ m.1)
