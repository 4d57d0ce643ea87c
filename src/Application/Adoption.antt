-- ===== src/Application/Adoption.antt =====
-- application.py: what the change of a run to the present configuration keeps and what it replaces.
use mathlib.Core.Path.{subst}
use goal_router.Common.{
  String, none, some, [], ◌∷◌, ◌≡◌, refl, true, false, ◌⊎◌, inl, inr, ap, sym, ◌∙◌, ◌==◌,
  Bool-cases, All, arith, eq_iff, eq_refl,
}
use goal_router.Common.Strings.{contains}
use goal_router.Common.Dict
use goal_router.Common.Dict.{Dict, keys, get-put}
use goal_router.Errors.{ok, ◌>>=◌, >>=-eq-ok, ok-injective}
use goal_router.Domain.Platform.{Platform}
use goal_router.Domain.WorkItem.{WorkItem}
use goal_router.Domain.RouteDecision.{RouteDecision}
use goal_router.Domain.RunState.{RunState}
use goal_router.Config.{RouterConfig}
use goal_router.Routing.{route}
use goal_router.Scheduler.Status.{is_pending}
use goal_router.Common.Distinct.{IsDistinct}
use goal_router.Application.{adopt_route, adopt_routes, adopt_current_configuration}

module _ {P : Platform} (config : RouterConfig) (state : RunState P) where
  -- The item has the route that the configuration gives it.
  abbrev pub IsRouted : Dict RouteDecision → String → WorkItem P → Type 0
  IsRouted routes id item =
      (d : RouteDecision) × (Dict.get routes id ≡ some d) × (route config item none ≡ ok d)

  pub adopt_current_configuration-objective :
      (next : RunState P)
      → adopt_current_configuration config state ≡ ok next
      → next.objective ≡ state.objective
  unfolding adopt_current_configuration
  adopt_current_configuration-objective next h =
      let (routes', _, done) =
        >>=-eq-ok (adopt_routes config state state.work_items state.routes) _ h in
      ap (λ (s : RunState P). s.objective) (sym (ok-injective done))

  -- The two ends of a turn: a new route for a pending item, or nothing.
  adopt_route-cases :
      (id : String) (item : WorkItem P) (routes next : Dict RouteDecision)
      → adopt_route config state id item routes ≡ ok next
      → ((is_pending state id ≡ true)
          × ((d : RouteDecision) × (route config item none ≡ ok d) × (Dict.put routes id d ≡ next)))
        ⊎ ((is_pending state id ≡ false) × (routes ≡ next))
  unfolding adopt_route
  adopt_route-cases id item routes next h = elim (Bool-cases (is_pending state id)) [
    | inl open_ ↦
        let h' : (route config item none >>= λ d. ok (Dict.put routes id d)) ≡ ok next =
          rw open_ at h in
        let (d, routed, done) = >>=-eq-ok (route config item none) _ h' in
        inl (open_, (d, routed, ok-injective done))
    | inr finished ↦
        let h' : ok routes ≡ ok next = rw finished at h in inr (finished, ok-injective h')
  ]

  -- A turn changes the route of its own item only.
  adopt_route-other :
      (id other : String) (item : WorkItem P) (routes next : Dict RouteDecision)
      → adopt_route config state id item routes ≡ ok next
      → ((id == other) ≡ false) ⊎ (is_pending state other ≡ false)
      → Dict.get next other ≡ Dict.get routes other
  adopt_route-other id other item routes next h apart =
      elim (adopt_route-cases id item routes next h) [
        | inl (open_, (d, routed, e)) ↦ elim apart [
          | inl differ ↦
              ap (λ r. Dict.get r other) (sym e) ∙ get-put routes id other d ∙ rw differ refl
          | inr finished ↦ elim (Bool-cases (id == other)) [
            | inl same ↦ absurd (ground (arith, ap (is_pending state) ((eq_iff id other).0 same)))
            | inr differ ↦
                ap (λ r. Dict.get r other) (sym e) ∙ get-put routes id other d ∙ rw differ refl
          ]
        ]
        | inr (_, e) ↦ ap (λ r. Dict.get r other) (sym e)
      ]

  adopt_routes-other :
      (items : Dict (WorkItem P)) (other : String) (routes next : Dict RouteDecision)
      → adopt_routes config state items routes ≡ ok next
      → (contains (keys items) other ≡ false) ⊎ (is_pending state other ≡ false)
      → Dict.get next other ≡ Dict.get routes other
  unfolding adopt_routes contains
  adopt_routes-other [] other routes next h apart =
      ap (λ r. Dict.get r other) (sym (ok-injective h))
  adopt_routes-other ((id, item) ∷ items) other routes next h apart =
      let (routes', first, rest) = >>=-eq-ok (adopt_route config state id item routes) _ h in
      let head : ((id == other) ≡ false) ⊎ (is_pending state other ≡ false) = elim apart [
        | inl absent ↦ inl (ground arith)
        | inr finished ↦ inr finished
      ] in
      let tail : (contains (keys items) other ≡ false) ⊎ (is_pending state other ≡ false) =
        elim apart [ inl absent ↦ inl (ground arith) | inr finished ↦ inr finished ] in
      adopt_routes-other items other routes' next rest tail
      ∙ adopt_route-other id other item routes routes' first head

  adopt_routes-IsRouted :
      (items : Dict (WorkItem P)) (routes next : Dict RouteDecision)
      → adopt_routes config state items routes ≡ ok next
      → IsDistinct (keys items)
      → All (λ e. is_pending state e.0 ≡ true → IsRouted next e.0 e.1) items
  unfolding adopt_routes
  adopt_routes-IsRouted [] routes next h distinct = tt
  adopt_routes-IsRouted ((id, item) ∷ items) routes next h (absent, distinct) =
      let (routes', first, rest) = >>=-eq-ok (adopt_route config state id item routes) _ h in
      (
        λ open_. elim (adopt_route-cases id item routes routes' first) [
          | inl (_, (d, routed, e)) ↦ (
            d,
            adopt_routes-other items id routes' next rest (inl absent)
                ∙ ap (λ r. Dict.get r id) (sym e)
                ∙ get-put routes id id d
                ∙ rw (eq_refl id) refl,
            routed,
          )
          | inr (finished, _) ↦ absurd (ground arith)
        ],
        adopt_routes-IsRouted items routes' next rest distinct,
      )

  -- The change to the present configuration, when it succeeds on a state whose work items have
  -- distinct keys, drops every approval and takes the configuration's digest; it keeps the work items,
  -- the results and the route of each id that is not pending, and each pending work item has the
  -- route that the configuration gives it.
  pub adopt_current_configuration-IsAdopted :
      (next : RunState P)
      → adopt_current_configuration config state ≡ ok next
      → IsDistinct (keys state.work_items)
      → (next.approvals ≡ [])
        × (next.configuration_digest ≡ config.digest)
        × (next.work_items ≡ state.work_items)
        × (next.results ≡ state.results)
        × ((id : String)
            → is_pending state id ≡ false
            → Dict.get next.routes id ≡ Dict.get state.routes id)
        × All (λ e. is_pending state e.0 ≡ true → IsRouted next.routes e.0 e.1) state.work_items
  unfolding adopt_current_configuration
  adopt_current_configuration-IsAdopted next h distinct =
      let (routes', looped, done) =
        >>=-eq-ok (adopt_routes config state state.work_items state.routes) _ h in
      let e = ok-injective done in
      (
        ap (λ s. s.approvals) (sym e),
        ap (λ s. s.configuration_digest) (sym e),
        ap (λ s. s.work_items) (sym e),
        ap (λ s. s.results) (sym e),
        λ id finished.
            ap (λ s. Dict.get s.routes id) (sym e)
            ∙ adopt_routes-other state.work_items id state.routes routes' looped (inr finished),
        subst
            (λ s.
              All (λ e. is_pending state e.0 ≡ true → IsRouted s.routes e.0 e.1) state.work_items)
            e (adopt_routes-IsRouted state.work_items state.routes routes' looped distinct),
      )
