-- ===== src/Impl/ProvisionerLog.antt =====
-- impl/provisioner-log/provisioner.go: the provisioner that keeps its routes in memory. The lock
-- makes each access to the map one step; what is logged is left out.
pub mod Gateway
pub mod Cycle
pub mod Examples
use dynamic_routes_provision.Base.{String, Option, none, some, List, [], ◌∷◌, ◌==◌, if◌then◌else◌}
use dynamic_routes_provision.Core.Dict.{Dict, insert, delete, values}
use dynamic_routes_provision.Core.Result.{ok, Action, pure, ◌>>=◌, ◌>>◌}
use dynamic_routes_provision.Core.Route.{RouteRequest, Certificate, ProvisionedRoute}
use dynamic_routes_provision.Core.Interfaces.{RouteProvisioner, Certs, cert_for}

-- `LogProvisioner.routes`, keyed by the route's identifier.
abbrev pub Routes : Type 0
Routes = Dict ProvisionedRoute

unfoldable pub new : Routes
new = []

cert_host : Option Certificate → String
cert_host none = ""
cert_host (some cert) = cert.host

unfoldable pub route_key : RouteRequest → String
route_key req = if req.id == "" then req.host else req.id

pub log_route : RouteRequest → Option Certificate → ProvisionedRoute
unfolding cert_host route_key
log_route req cert = record {
  route_id = route_key req;
  host = req.host;
  gateway_id = "log-console";
  certificate_id = cert_host cert;
  status = "active";
  provider_name = "log";
}

pub provision : RouteRequest → Option Certificate → Action Routes ProvisionedRoute
unfolding log_route insert
provision req cert routes =
    (ok (log_route req cert), insert (route_key req) (log_route req cert) routes)

pub deprovision : String → Action Routes (Unit {0})
unfolding delete
deprovision route_id routes = (ok tt, delete route_id routes)

unfoldable pub list : Action Routes (List ProvisionedRoute)
unfolding values
list routes = (ok (values routes), routes)

pub batch_provision : List RouteRequest → Certs → Action Routes (List ProvisionedRoute)
unfolding provision cert_for
batch_provision [] certs = pure []
batch_provision (req ∷ rest) certs = do
  result ← provision req (cert_for req.host certs)
  results ← batch_provision rest certs
  pure (result ∷ results)

pub batch_deprovision : List String → Action Routes (Unit {0})
unfolding deprovision
batch_deprovision [] = pure tt
batch_deprovision (id ∷ rest) = deprovision id >> batch_deprovision rest

abbrev pub log_provisioner : RouteProvisioner Routes
log_provisioner = record {
  name = "log";
  provision = provision;
  deprovision = deprovision;
  list = list;
  batch_provision = batch_provision;
  batch_deprovision = batch_deprovision;
}
