-- ===== src/Cmd/NetscalerMapper.antt =====
-- cmd/routes-provisioner/internal/provisioner/netscaler_mapper.go: the operations that make and
-- unmake an SSL virtual server with its services. `base64` is the encoder of the standard library.
pub mod Order
use dynamic_routes_provision.Base.{String, ℕ, suc, ◌⧺◌, Option, none, some, List, [], ◌∷◌, ◌++◌}
use dynamic_routes_provision.Core.Dict.{Dict}
use dynamic_routes_provision.Core.Result.{Result, ok}
use dynamic_routes_provision.Core.Route.{RouteRequest, Backend, Certificate}
use dynamic_routes_provision.Core.Interfaces.{Certs, cert_for}
use dynamic_routes_provision.Cmd.Names.{dashed, decimal}
use dynamic_routes_provision.Impl.ProvisionerNetscaler.{ResourceMapper}
use dynamic_routes_provision.Impl.ProvisionerNetscaler.Nitro.{
  NitroAction, add, delete, bind, unbind, Value, str, num, NitroOperation,
}

abbrev operation : NitroAction → String → String → Dict Value → NitroOperation
operation action type name properties = record {
  action = action;
  resource = record { type = type; name = name; properties = properties };
}

pub route_id : RouteRequest → String
unfolding dashed
route_id req = "routes-" ⧺ dashed req.host

system_file : String → String → NitroOperation
system_file name content = operation add "systemfile" name (
    ("filename", str name)
    ∷ ("filelocation", str "/nsconfig/ssl")
    ∷ ("filecontent", str content)
    ∷ ("fileencoding", str "BASE64")
    ∷ [])

-- Step 3.
vserver : String → NitroOperation
vserver id = operation add "lbvserver" id (
    ("servicetype", str "SSL")
    ∷ ("ipv46", str "0.0.0.0")
    ∷ ("port", num 443)
    ∷ ("lbmethod", str "ROUNDROBIN")
    ∷ [])

service_name : String → ℕ → String
service_name id i = id ⧺ "-svc-" ⧺ decimal i

-- Step 4: the services, numbered from `i`, each bound to the server.
services : String → ℕ → List Backend → List NitroOperation
unfolding service_name
services id i [] = []
services id i (backend ∷ rest) =
    operation add "service" (service_name id i) (
      ("servername", str backend.service_name)
      ∷ ("port", num backend.port)
      ∷ ("servicetype", str "HTTP")
      ∷ [])
    ∷ operation bind "lbvserver_service_binding" id
        (("servicename", str (service_name id i)) ∷ ("weight", num backend.weight) ∷ [])
    ∷ services id (suc i) rest

-- Step 5.
bind_cert : String → Option Certificate → List NitroOperation
bind_cert id none = []
bind_cert id (some cert) =
    operation bind "sslvserver_sslcertkey_binding" id (("certkeyname", str (id ⧺ "-cert")) ∷ [])
    ∷ []

pub deprovision_ops : String → List NitroOperation
deprovision_ops id =
    operation unbind "sslvserver_sslcertkey_binding" id (("certkeyname", str (id ⧺ "-cert")) ∷ [])
    ∷ operation delete "lbvserver" id []
    ∷ operation delete "sslcertkey" (id ⧺ "-cert") []
    ∷ operation delete "systemfile" (id ⧺ ".crt") (("filelocation", str "/nsconfig/ssl") ∷ [])
    ∷ operation delete "systemfile" (id ⧺ ".key") (("filelocation", str "/nsconfig/ssl") ∷ [])
    ∷ []

pub map_deprovision : String → Result (List NitroOperation)
map_deprovision id = ok (deprovision_ops id)

batch_deprovision_ops : List String → List NitroOperation
batch_deprovision_ops [] = []
batch_deprovision_ops (id ∷ rest) = deprovision_ops id ++ batch_deprovision_ops rest

pub map_batch_deprovision : List String → Result (List NitroOperation)
unfolding batch_deprovision_ops
map_batch_deprovision ids = ok (batch_deprovision_ops ids)

module _ (base64 : List ℕ → String) where
  -- Steps 1 and 2: the files and the certificate.
  upload : String → Option Certificate → List NitroOperation
  unfolding system_file
  upload id none = []
  upload id (some cert) =
      system_file (id ⧺ ".crt") (base64 cert.cert_pem)
      ∷ system_file (id ⧺ ".key") (base64 cert.key_pem)
      ∷ operation add "sslcertkey" (id ⧺ "-cert") (
          ("cert", str ("/nsconfig/ssl/" ⧺ id ⧺ ".crt"))
          ∷ ("key", str ("/nsconfig/ssl/" ⧺ id ⧺ ".key"))
          ∷ [])
      ∷ []

  pub provision_ops : RouteRequest → Option Certificate → List NitroOperation
  unfolding upload vserver services bind_cert route_id
  provision_ops req cert =
      let id = route_id req in
      upload id cert ++ (vserver id ∷ (services id 0 req.backends ++ bind_cert id cert))

  pub map_provision : RouteRequest → Option Certificate → Result (List NitroOperation)
  map_provision req cert = ok (provision_ops req cert)

  -- Neither of the two mapping functions fails, so the batches do not.
  batch_provision_ops : List RouteRequest → Certs → List NitroOperation
  batch_provision_ops [] certs = []
  batch_provision_ops (route ∷ rest) certs =
      provision_ops route (cert_for route.host certs) ++ batch_provision_ops rest certs

  pub map_batch_provision : List RouteRequest → Certs → Result (List NitroOperation)
  unfolding batch_provision_ops
  map_batch_provision routes certs = ok (batch_provision_ops routes certs)

  pub to_resource_mapper : ResourceMapper
  to_resource_mapper = record {
    map_provision = map_provision;
    map_deprovision = map_deprovision;
    route_id = route_id;
    map_batch_provision = map_batch_provision;
    map_batch_deprovision = map_batch_deprovision;
    resource_type = "lbvserver";
    name_prefix = "routes-";
  }
