-- ===== src/Core/Reconciler/Examples.antt =====
-- The theorems on cycles at a gateway in memory and fixed routes.
use dynamic_routes_provision.Base.{String, ◌≡◌, refl, true, List, [], ◌∷◌}
use dynamic_routes_provision.Core.Dict.{values}
use dynamic_routes_provision.Core.Result.{ok, panic, errorf, err, raise, pure}
use dynamic_routes_provision.Core.Route.{RouteRequest, ProvisionedRoute}
use dynamic_routes_provision.Core.Interfaces.{Issuer, DesiredStateProvider}
use dynamic_routes_provision.Core.Reconciler.{Reconciler, reconcile, diff}
use dynamic_routes_provision.Core.Reconciler.Diff.{wanted, served, missing, diff-eq-filter}
use dynamic_routes_provision.Core.Reconciler.Contract.{IsQuiet}
use dynamic_routes_provision.Core.Reconciler.Converge.{reconcile-converges, reconcile-settled}
use dynamic_routes_provision.Core.Reconciler.Failures.{
  read_both, reconcile-unreadable, reconcile-nil_panics,
}
use dynamic_routes_provision.Impl.CertNone.{none_issuer}
use dynamic_routes_provision.Impl.ProvisionerLog.{Routes, route_key, log_provisioner, list}
use dynamic_routes_provision.Impl.ProvisionerLog.Gateway.{log_gateway, Keyed}

abbrev pub request_for : String → RouteRequest
request_for host = record {
  id = "";
  host = host;
  path = "/";
  backends = [];
  tls = true;
  metadata = [];
  created_at = 0;
}

abbrev pub route_for : String → ProvisionedRoute
route_for host = record {
  route_id = host;
  host = host;
  gateway_id = "log-console";
  certificate_id = "";
  status = "active";
  provider_name = "log";
}

abbrev pub two_requests : List RouteRequest
two_requests = request_for "a.example" ∷ request_for "b.example" ∷ []

-- A gateway with a route that is wanted and one that is not.
abbrev pub some_routes : Routes
some_routes = ("b.example", route_for "b.example") ∷ ("old.example", route_for "old.example") ∷ []

abbrev pub failing_issuer : Issuer Routes
failing_issuer = record {
  name = "failing";
  issue = λ req. raise (errorf "no authority");
  revoke = λ cert. pure tt;
}

abbrev pub fixed_source : List RouteRequest → DesiredStateProvider Routes
fixed_source ds = record { name = "fixed"; list = pure ds }

abbrev pub reconciler : Reconciler Routes
reconciler = record {
  desired = fixed_source two_requests;
  issuer = failing_issuer;
  provisioner = log_provisioner;
}

abbrev pub same_host : String → String
same_host id = id

pub failing-IsQuiet : IsQuiet failing_issuer (Keyed same_host) values
failing-IsQuiet = record {
  no_nil = λ r w e. cc;
  no_panic = λ r w e. cc;
  keeps_Inv = λ r w v. v;
  keeps_shows = λ r w. refl;
}

reconcile-converges_example :
    ((reconcile reconciler some_routes).0 ≡ ok tt)
    × Keyed same_host (reconcile reconciler some_routes).1
    × ((h : String)
        → served h (values (reconcile reconciler some_routes).1) ≡ wanted h two_requests)
unfolding route_key values log_gateway list
reconcile-converges_example =
    reconcile-converges reconciler (log_gateway same_host) failing-IsQuiet two_requests some_routes
      refl ((refl, refl), ((refl, refl), tt)) (refl, (refl, tt))

abbrev settled_routes : Routes
settled_routes = ("a.example", route_for "a.example") ∷ ("b.example", route_for "b.example") ∷ []

reconcile-settled_example : reconcile reconciler settled_routes ≡ (ok tt, settled_routes)
unfolding values log_gateway list
reconcile-settled_example =
    reconcile-settled reconciler (log_gateway same_host) failing-IsQuiet two_requests settled_routes
      refl ((refl, refl), ((refl, refl), tt)) (λ h. refl)

diff-eq-filter_example :
    diff two_requests (route_for "b.example" ∷ route_for "old.example" ∷ []) ≡ (
      missing two_requests (route_for "b.example" ∷ route_for "old.example" ∷ []),
      "old.example" ∷ [],
    )
diff-eq-filter_example =
    diff-eq-filter two_requests (route_for "b.example" ∷ route_for "old.example" ∷ [])

abbrev broken : Reconciler Routes
broken = record {
  desired = record { name = "broken"; list = raise (errorf "no connection") };
  issuer = failing_issuer;
  provisioner = log_provisioner;
}

reconcile-unreadable_example :
    reconcile broken some_routes ≡ (err (errorf "no connection"), (read_both broken some_routes).1)
unfolding read_both
reconcile-unreadable_example = reconcile-unreadable broken some_routes refl

abbrev without_certs : Reconciler Routes
without_certs = record {
  desired = fixed_source two_requests;
  issuer = none_issuer;
  provisioner = log_provisioner;
}

reconcile-nil_panics_example : (reconcile without_certs some_routes).0 ≡ panic
unfolding list values
reconcile-nil_panics_example =
    reconcile-nil_panics without_certs (λ d w. refl) two_requests (values some_routes) some_routes
      refl refl refl
