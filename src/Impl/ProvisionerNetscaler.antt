-- ===== src/Impl/ProvisionerNetscaler.antt =====
-- impl/provisioner-netscaler/provisioner.go: routes on a Netscaler, by the operations that a
-- `ResourceMapper` returns.
pub mod Nitro
pub mod Listing
pub mod Sequence
pub mod Examples
use dynamic_routes_provision.Base.{String, ℕ, suc, ◌⧺◌, Option, none, some, List, [], ◌∷◌, map}
use dynamic_routes_provision.Core.Dict.{Dict, lookup}
use dynamic_routes_provision.Core.Result.{
  Error, wrap, Result, ok, err, panic, Action, pure, lift, ◌>>=◌, ◌>>◌, wrapping,
}
use dynamic_routes_provision.Core.Route.{RouteRequest, Certificate, ProvisionedRoute}
use dynamic_routes_provision.Core.Interfaces.{RouteProvisioner, Certs, cert_for}
use dynamic_routes_provision.Cmd.Names.{decimal}
use dynamic_routes_provision.Impl.ProvisionerNetscaler.Nitro.{
  Value, str, num, NitroOperation, NitroClient, action_text, execute, batch_execute, list_resources,
}

-- The interface of mapper.go.
pub record ResourceMapper : Type 0 where
  pub map_provision : RouteRequest → Option Certificate → Result (List NitroOperation)
  pub map_deprovision : String → Result (List NitroOperation)
  pub route_id : RouteRequest → String
  pub map_batch_provision : List RouteRequest → Certs → Result (List NitroOperation)
  pub map_batch_deprovision : List String → Result (List NitroOperation)
  pub resource_type : String
  pub name_prefix : String

pub record NetscalerProvisioner (W : Type 0) : Type 0 where
  pub client : NitroClient W
  pub mapper : ResourceMapper

cert_id : Option Certificate → String
cert_id none = ""
cert_id (some cert) = cert.host

-- `name, _ := res["name"].(string)`
name_of : Option Value → String
name_of (some (str name)) = name
name_of (some (num n)) = ""
name_of none = ""

abbrev wrapped_in : String → Result (List NitroOperation) → Result (List NitroOperation)
wrapped_in context (ok ops) = ok ops
wrapped_in context (err e) = err (wrap context e)
wrapped_in context panic = panic

module _ {W : Type 0} (p : NetscalerProvisioner W) where
  pub failure : ℕ → NitroOperation → String
  failure i op =
      "operation "
      ⧺ decimal i
      ⧺ " ("
      ⧺ action_text op.action
      ⧺ " "
      ⧺ op.resource.type
      ⧺ "/"
      ⧺ op.resource.name
      ⧺ ") failed"

  -- The loop over the operations: the first that fails ends it.
  pub execute_all : ℕ → List NitroOperation → Action W (Unit {0})
  execute_all i [] = pure tt
  execute_all i (op ∷ rest) =
      wrapping (failure i op) (execute p.client op) >> execute_all (suc i) rest

  pub provision : RouteRequest → Option Certificate → Action W ProvisionedRoute
  provision req cert = do
    ops ← lift (wrapped_in "map provision operations" (p.mapper.map_provision req cert))
    execute_all 0 ops
    pure (record {
      route_id = p.mapper.route_id req;
      host = req.host;
      gateway_id = p.client.endpoint;
      certificate_id = cert_id cert;
      status = "active";
      provider_name = "netscaler-cpx";
    })

  pub deprovision : String → Action W (Unit {0})
  deprovision route_id = do
    ops ← lift (wrapped_in "map deprovision operations" (p.mapper.map_deprovision route_id))
    execute_all 0 ops

  -- The host and the certificate are left empty.
  pub listed_route : Dict Value → ProvisionedRoute
  listed_route res = record {
    route_id = name_of (lookup "name" res);
    host = "";
    gateway_id = p.client.endpoint;
    certificate_id = "";
    status = "active";
    provider_name = "netscaler-cpx";
  }

  pub resources : Action W (List (Dict Value))
  resources =
      wrapping ("list " ⧺ p.mapper.resource_type ⧺ " resources")
        (list_resources p.client p.mapper.resource_type ("name:" ⧺ p.mapper.name_prefix))

  pub list : Action W (List ProvisionedRoute)
  list = do found ← resources; pure (map listed_route found)

  batch_result : Certs → RouteRequest → ProvisionedRoute
  batch_result certs req = record {
    route_id = p.mapper.route_id req;
    host = req.host;
    gateway_id = p.client.endpoint;
    certificate_id = cert_id (cert_for req.host certs);
    status = "active";
    provider_name = "netscaler-cpx";
  }

  pub batch_provision : List RouteRequest → Certs → Action W (List ProvisionedRoute)
  batch_provision routes certs = do
    ops ←
        lift
          (wrapped_in "map batch provision operations" (p.mapper.map_batch_provision routes certs))
    wrapping "batch execute failed" (batch_execute p.client ops)
    pure (map (batch_result certs) routes)

  pub batch_deprovision : List String → Action W (Unit {0})
  batch_deprovision route_ids = do
    ops ←
        lift
          (wrapped_in "map batch deprovision operations" (p.mapper.map_batch_deprovision route_ids))
    batch_execute p.client ops

  abbrev pub netscaler_provisioner : RouteProvisioner W
  netscaler_provisioner = record {
    name = "netscaler-cpx";
    provision = provision;
    deprovision = deprovision;
    list = list;
    batch_provision = batch_provision;
    batch_deprovision = batch_deprovision;
  }
