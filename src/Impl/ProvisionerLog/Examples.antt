-- ===== src/Impl/ProvisionerLog/Examples.antt =====
-- The cycle on the log provisioner at two requests, one held route that is wanted and one that is not.
use dynamic_routes_provision.Base.{String, ◌≡◌, refl}
use dynamic_routes_provision.Core.Dict.{values}
use dynamic_routes_provision.Core.Result.{ok}
use dynamic_routes_provision.Core.Reconciler.{reconcile}
use dynamic_routes_provision.Core.Reconciler.Diff.{wanted, served}
use dynamic_routes_provision.Core.Reconciler.Examples.{
  two_requests, some_routes, failing_issuer, fixed_source, same_host, failing-IsQuiet,
}
use dynamic_routes_provision.Impl.ProvisionerLog.{route_key}
use dynamic_routes_provision.Impl.ProvisionerLog.Cycle.{with_log, reconcile-log_provisioner}

reconcile-log_provisioner_example :
    ((reconcile (with_log (fixed_source two_requests) failing_issuer) some_routes).0 ≡ ok tt)
    × ((h : String)
        → served h
            (values (reconcile (with_log (fixed_source two_requests) failing_issuer) some_routes).1)
          ≡ wanted h two_requests)
unfolding route_key
reconcile-log_provisioner_example =
    reconcile-log_provisioner same_host (fixed_source two_requests) failing_issuer two_requests
      some_routes failing-IsQuiet refl ((refl, refl), ((refl, refl), tt)) (refl, (refl, tt))
