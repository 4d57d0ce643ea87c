-- ===== src/Scheduler/Steps/Safety.antt =====
-- scheduler.py: what every sequence of steps keeps.
use mathlib.Core.Path.{subst}
use goal_router.Common.{
  String, true, false, [], ◌∷◌, ◌≡◌, refl, sym, ap, ◌∙◌, ◌==◌, arith, inl, inr, Bool-cases, eq_iff,
}
use goal_router.Common.Dict
use goal_router.Common.Dict.{Dict, get-put}
use goal_router.Domain.Platform.{Platform}
use goal_router.Domain.Json.{JsonValue}
use goal_router.Domain.Enums.{RunStatus}
use goal_router.Domain.WorkResult.{WorkResult}
use goal_router.Domain.RunState.{RunState}
use goal_router.Scheduler.Effects.{
  Effect, Environment, History, World, save, append_event, acquire, release, call,
}
use goal_router.Scheduler.Status.{is_pending}
use goal_router.Scheduler.Steps.{MayCall, Step, Reach, set, do_effect, note, here, next, Allowed}

module _ {P : Platform} (env : Environment P) (digest : JsonValue P → String) where
  abbrev pub CallSafe : Effect P → History P → Type 0
  CallSafe (call s item request) log = MayCall env digest s item request log
  CallSafe _ log = Unit

  -- Every call of the history was one that the scheduler may make.
  abbrev pub IsSafe : History P → Type 0
  IsSafe [] = Unit
  IsSafe (e ∷ log) = CallSafe e log × IsSafe log

  -- What no step changes, and the results that none replaces.
  pub record Keeps (s t : RunState P) : Type 0 where
    pub schema_version : t.schema_version ≡ s.schema_version
    pub configuration_digest : t.configuration_digest ≡ s.configuration_digest
    pub objective : t.objective ≡ s.objective
    pub repository : t.repository ≡ s.repository
    pub work_items : t.work_items ≡ s.work_items
    pub routes : t.routes ≡ s.routes
    pub approvals : t.approvals ≡ s.approvals
    pub results :
        (id : String) → is_pending s id ≡ false → Dict.get t.results id ≡ Dict.get s.results id

  -- A new status, and results that keep the finished ones.
  Keeps-of :
      (s : RunState P) (x : RunStatus) (results' : Dict (WorkResult P))
      → ((id : String) → is_pending s id ≡ false → Dict.get results' id ≡ Dict.get s.results id)
      → Keeps s (record s { results = results'; status = x })
  Keeps-of s x results' h = record {
    schema_version = refl;
    configuration_digest = refl;
    objective = refl;
    repository = refl;
    work_items = refl;
    routes = refl;
    approvals = refl;
    results = h;
  }

  Keeps-refl : (s : RunState P) → Keeps s s
  Keeps-refl s = Keeps-of s s.status s.results (λ id h. refl)

  is_pending-get :
      (s t : RunState P) (id : String)
      → Dict.get t.results id ≡ Dict.get s.results id
      → is_pending t id ≡ is_pending s id
  unfolding is_pending
  is_pending-get s t id h = ground (arith, h)

  Keeps-trans : (s t v : RunState P) → Keeps s t → Keeps t v → Keeps s v
  Keeps-trans s t v h k = record {
    schema_version = k.schema_version ∙ h.schema_version;
    configuration_digest = k.configuration_digest ∙ h.configuration_digest;
    objective = k.objective ∙ h.objective;
    repository = k.repository ∙ h.repository;
    work_items = k.work_items ∙ h.work_items;
    routes = k.routes ∙ h.routes;
    approvals = k.approvals ∙ h.approvals;
    results = λ id e. k.results id (is_pending-get s t id (h.results id e) ∙ e) ∙ h.results id e;
  }

  -- A result for a pending item leaves the results of the others.
  put-kept :
      (s : RunState P) (k id : String) (r : WorkResult P)
      → is_pending s k ≡ true
      → is_pending s id ≡ false
      → Dict.get (Dict.put s.results k r) id ≡ Dict.get s.results id
  put-kept s k id r open_ finished = elim (Bool-cases (k == id)) [
    | inl same ↦ absurd (ground (arith, ap (is_pending s) ((eq_iff k id).0 same)))
    | inr differ ↦ get-put s.results k id r ∙ rw differ refl
  ]

  Step-Keeps : {w u : World P} → Step env digest w u → Keeps w.state u.state
  Step-Keeps {w} (set x e) =
      subst (λ (v : World P). Keeps w.state v.state) (sym e)
        (Keeps-of w.state x w.state.results (λ id h. refl))
  Step-Keeps {w} (do_effect a h e) =
      subst (λ (v : World P). Keeps w.state v.state) (sym e) (Keeps-refl w.state)
  Step-Keeps {w} (note r h e) =
      subst (λ (v : World P). Keeps w.state v.state) (sym e)
        (Keeps-of w.state w.state.status (Dict.put w.state.results r.work_item_id r)
          (λ id f. put-kept w.state r.work_item_id id r h f))

  CallSafe-of : (w : World P) (a : Effect P) → Allowed env digest w a → CallSafe a w.log
  CallSafe-of w (save s) h = tt
  CallSafe-of w (append_event id e) h = tt
  CallSafe-of w (acquire path) h = tt
  CallSafe-of w (release path) h = tt
  CallSafe-of w (call s item request) (e, h) = h

  Step-IsSafe : {w u : World P} → Step env digest w u → IsSafe w.log → IsSafe u.log
  Step-IsSafe {w} (set s e) h = subst (λ (x : World P). IsSafe x.log) (sym e) h
  Step-IsSafe {w} (do_effect a allowed e) h =
      subst (λ (x : World P). IsSafe x.log) (sym e) (CallSafe-of w a allowed, h)
  Step-IsSafe {w} (note r p e) h = subst (λ (x : World P). IsSafe x.log) (sym e) h

  pub Reach-Keeps : {w u : World P} → Reach env digest w u → Keeps w.state u.state
  Reach-Keeps {w} here = Keeps-refl w.state
  Reach-Keeps {w} (next r s) = Keeps-trans _ _ _ (Reach-Keeps r) (Step-Keeps s)

  pub Reach-IsSafe : {w u : World P} → Reach env digest w u → IsSafe w.log → IsSafe u.log
  Reach-IsSafe here h = h
  Reach-IsSafe (next r s) h = Step-IsSafe s (Reach-IsSafe r h)
