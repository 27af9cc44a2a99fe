-- ===== src/Cmd/IngressMapper.antt =====
-- cmd/routes-provisioner/internal/provisioner/ingress_mapper.go: the application's Ingress mapper.
pub mod Identity
use dynamic_routes_provision.Base.{
  String, ℕ, ◌⧺◌, Bool, Option, none, some, List, [], ◌∷◌, ◌==◌, if◌then◌else◌,
}
use Prim.Native.Nat.{◌%◌, ◌^◌}
use dynamic_routes_provision.Core.Dict.{Dict}
use dynamic_routes_provision.Core.Result.{Result, ok, err, errorf}
use dynamic_routes_provision.Core.Route.{RouteRequest, Backend}
use dynamic_routes_provision.Cmd.Names.{dashed, safe_name, truncated, decimal}
use dynamic_routes_provision.Impl.ProvisionerIngress.Types as Types
use dynamic_routes_provision.Impl.ProvisionerIngress.Types.{IngressRule, IngressTls, HttpPath}

-- `DefaultSecretName`
pub default_secret_name : String → String
unfolding truncated safe_name
default_secret_name host = truncated ("tls-" ⧺ safe_name host)

-- The type `IngressMapper`.
pub record IngressMapper : Type 0 where
  pub secret_name_func : String → String
  pub ingress_class_name : String
  pub extra_annotations : Dict String

pub route_id : RouteRequest → String
unfolding dashed
route_id req = "routes-" ⧺ dashed req.host

pub extract_route_id : IngressRule → String
unfolding dashed
extract_route_id rule = "routes-" ⧺ dashed rule.host

-- `int32(port)`, as a bit pattern
unfoldable pub int32 : ℕ → ℕ
int32 port = port % 2 ^ 32

unfoldable pub rule_for : RouteRequest → Backend → IngressRule
unfolding int32
rule_for req backend = record {
  host = req.host;
  paths =
      record {
        path = if req.path == "" then "/" else req.path;
        path_type = "Prefix";
        service_name = backend.service_name;
        number = int32 backend.port;
      }
      ∷ [];
}

unfoldable pub first_backend : RouteRequest → List Backend → Result IngressRule
unfolding rule_for
first_backend req [] = err (errorf ("route " ⧺ req.id ⧺ " has no backends"))
first_backend req (backend ∷ rest) = ok (rule_for req backend)

unfoldable pub map_rule : RouteRequest → Result IngressRule
unfolding first_backend
map_rule req = first_backend req req.backends

pub map_tls : IngressMapper → RouteRequest → Result (Option IngressTls)
map_tls m req =
    ok (some (record { hosts = req.host ∷ []; secret_name = m.secret_name_func req.host }))

pub labels : Dict String
labels = ("app.kubernetes.io/managed-by", "dynamic-route-provisioner") ∷ []

pub ingress_name : ℕ → String
unfolding decimal
ingress_name index = "routes-" ⧺ decimal index

unfoldable pub to_ingress_mapper : IngressMapper → Types.IngressMapper
unfolding route_id extract_route_id map_rule map_tls labels ingress_name
to_ingress_mapper m = record {
  map_rule = map_rule;
  map_tls = map_tls m;
  ingress_name = ingress_name;
  annotations = m.extra_annotations;
  labels = labels;
  ingress_class = m.ingress_class_name;
  route_id = route_id;
  extract_route_id = extract_route_id;
}
