-- ===== src/Tests/Adoption.antt =====
-- The change of a run to the present configuration, at a run of one pending item.
use goal_router.Common.{String, [], ◌∷◌, ◌≡◌, refl, true, false, All}
use goal_router.Common.Dict
use goal_router.Common.Dict.{keys}
use goal_router.Common.Strings.{contains, join}
use goal_router.Errors.{ok}
use goal_router.Domain.Enums.{RouteSource}
use goal_router.Domain.RouteDecision.{RouteDecision}
use goal_router.Domain.RunState.{RunState}
use goal_router.Routing.{
  route, select_task, route_selected, apply_rules, is_active, apply_rule, select_alias, candidates,
  decide,
}
use goal_router.Scheduler.Status.{is_pending}
use goal_router.Common.Distinct.{IsDistinct}
use goal_router.Application.{adopt_current_configuration, adopt_routes, adopt_route}
use goal_router.Application.Adoption.{IsRouted, adopt_current_configuration-IsAdopted}
use goal_router.Samples.{platform, config, decision, waiting}

abbrev rerouted : RouteDecision
rerouted = record decision {
  source = RouteSource.planner;
  reason = "planner task coding; hard floors security:strong";
}

abbrev adopted : RunState platform
adopted = record waiting { routes = ("a", rerouted) ∷ [] }

adopts : adopt_current_configuration config waiting ≡ ok adopted
unfolding adopt_current_configuration adopt_routes adopt_route is_pending route select_task Dict.has
    Dict.put route_selected Dict.get apply_rules is_active contains apply_rule select_alias
    candidates decide join
adopts = refl

one_key : IsDistinct (keys waiting.work_items)
unfolding contains
one_key = (refl, tt)

adopt_current_configuration-IsAdopted_example :
    (adopted.approvals ≡ [])
    × (adopted.configuration_digest ≡ config.digest)
    × (adopted.work_items ≡ waiting.work_items)
    × (adopted.results ≡ waiting.results)
    × ((id : String)
        → is_pending waiting id ≡ false
        → Dict.get adopted.routes id ≡ Dict.get waiting.routes id)
    × All
        (λ e. is_pending waiting e.0 ≡ true → IsRouted config waiting adopted.routes e.0 e.1)
        waiting.work_items
adopt_current_configuration-IsAdopted_example =
    adopt_current_configuration-IsAdopted config waiting adopted adopts one_key
