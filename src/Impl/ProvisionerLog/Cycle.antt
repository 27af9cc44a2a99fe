-- ===== src/Impl/ProvisionerLog/Cycle.antt =====
-- A cycle of core/reconciler/reconciler.go on the log provisioner.
use dynamic_routes_provision.Base.{String, ◌≡◌, List, All}
use dynamic_routes_provision.Core.Dict.{values}
use dynamic_routes_provision.Core.Result.{ok}
use dynamic_routes_provision.Core.Route.{RouteRequest}
use dynamic_routes_provision.Core.Interfaces.{Issuer, DesiredStateProvider}
use dynamic_routes_provision.Core.Reconciler.{Reconciler, reconcile}
use dynamic_routes_provision.Core.Reconciler.Diff.{wanted, served}
use dynamic_routes_provision.Core.Reconciler.Contract.{IsQuiet}
use dynamic_routes_provision.Core.Reconciler.Converge.{reconcile-converges}
use dynamic_routes_provision.Impl.ProvisionerLog.{Routes, log_provisioner}
use dynamic_routes_provision.Impl.ProvisionerLog.Gateway.{Keyed, Fits, log_gateway}

abbrev pub with_log : DesiredStateProvider Routes → Issuer Routes → Reconciler Routes
with_log desired issuer = record {
  desired = desired;
  issuer = issuer;
  provisioner = log_provisioner;
}

-- The log provisioner keeps the contract of a gateway: where each identifier stands for one host, in
-- the routes that it holds and in the requests, and the issuer returns no nil certificate, does not
-- panic and leaves the routes alone, a cycle returns no error and the log provisioner then holds routes
-- for exactly the hosts of the desired requests.
pub reconcile-log_provisioner :
    (host_of : String → String) (desired : DesiredStateProvider Routes) (issuer : Issuer Routes)
    (ds : List RouteRequest) (m : Routes)
    → IsQuiet issuer (Keyed host_of) values
    → desired.list m ≡ (ok ds, m)
    → Keyed host_of m
    → All (Fits host_of) ds
    → ((reconcile (with_log desired issuer) m).0 ≡ ok tt)
      × ((h : String) → served h (values (reconcile (with_log desired issuer) m).1) ≡ wanted h ds)
unfolding log_gateway
reconcile-log_provisioner host_of desired issuer ds m q reads keyed fits =
    let done =
      reconcile-converges (with_log desired issuer) (log_gateway host_of) q ds m reads keyed fits in
    (done.0, done.2)
