-- ===== src/Core/Interfaces.antt =====
-- The interfaces of core/: certificate.go, provisioner.go, desired.go. An implementation acts on
-- a world `W`: its own memory, and the services that it calls.
use dynamic_routes_provision.Base.{String, Option, none, some, List}
use dynamic_routes_provision.Core.Dict.{Dict, lookup}
use dynamic_routes_provision.Core.Result.{Action}
use dynamic_routes_provision.Core.Route.{RouteRequest, Certificate, ProvisionedRoute}

-- `*core.Certificate` may be nil.
pub record Issuer (W : Type 0) : Type 0 where
  pub name : String
  pub issue : RouteRequest → Action W (Option Certificate)
  pub revoke : Certificate → Action W (Unit {0})

abbrev pub Certs : Type 0
Certs = Dict (Option Certificate)

-- `certs[host]`: nil on a missing key
unfoldable pub cert_for : String → Certs → Option Certificate
unfolding lookup
cert_for host certs = elim (lookup host certs) [ none ↦ none | some cert ↦ cert ]

pub record RouteProvisioner (W : Type 0) : Type 0 where
  pub name : String
  pub provision : RouteRequest → Option Certificate → Action W ProvisionedRoute
  pub deprovision : String → Action W (Unit {0})
  pub list : Action W (List ProvisionedRoute)
  pub batch_provision : List RouteRequest → Certs → Action W (List ProvisionedRoute)
  pub batch_deprovision : List String → Action W (Unit {0})

pub record DesiredStateProvider (W : Type 0) : Type 0 where
  pub name : String
  pub list : Action W (List RouteRequest)
