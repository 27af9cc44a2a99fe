-- ===== src/Core/Desired/Examples.antt =====
-- The theorems on the composite at two fixed sources.
use dynamic_routes_provision.Base.{◌≡◌, refl, List, [], ◌∷◌}
use dynamic_routes_provision.Core.Result.{ok, err, errorf, raise}
use dynamic_routes_provision.Core.Route.{RouteRequest}
use dynamic_routes_provision.Core.Interfaces.{DesiredStateProvider}
use dynamic_routes_provision.Core.Reconciler.Examples.{request_for, two_requests, fixed_source}
use dynamic_routes_provision.Core.Desired.{
  composite_list, composite_list-Reads, composite_list-fails,
}
use dynamic_routes_provision.Impl.ProvisionerLog.{Routes}

abbrev one_request : List RouteRequest
one_request = request_for "c.example" ∷ []

abbrev sources : List (DesiredStateProvider Routes × List RouteRequest)
sources = (fixed_source two_requests, two_requests) ∷ (fixed_source one_request, one_request) ∷ []

abbrev unreadable : DesiredStateProvider Routes
unreadable = record { name = "unreadable"; list = raise (errorf "no connection") }

composite_list-Reads_example :
    composite_list (fixed_source two_requests ∷ fixed_source one_request ∷ []) []
    ≡ (ok (request_for "a.example" ∷ request_for "b.example" ∷ request_for "c.example" ∷ []), [])
composite_list-Reads_example = composite_list-Reads [] sources (refl, (refl, tt))

composite_list-fails_example :
    composite_list (fixed_source two_requests ∷ fixed_source one_request ∷ unreadable ∷ []) []
    ≡ (err (errorf "no connection"), [])
composite_list-fails_example =
    composite_list-fails [] sources unreadable [] (errorf "no connection") [] (refl, (refl, tt))
      refl
