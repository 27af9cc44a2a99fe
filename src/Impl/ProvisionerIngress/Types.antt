-- ===== src/Impl/ProvisionerIngress/Types.antt =====
-- The Kubernetes objects of impl/provisioner-ingress, its `IngressMapper` interface and its
-- configuration, and the part of the Kubernetes API that it calls.
use dynamic_routes_provision.Base.{String, ℕ, Bool, Option, List}
use dynamic_routes_provision.Core.Dict.{Dict}
use dynamic_routes_provision.Core.Result.{Error, Result, Action}
use dynamic_routes_provision.Core.Route.{RouteRequest}

-- One HTTP path of a rule; `number` is the bit pattern of the port's int32.
pub record HttpPath : Type 0 where
  pub path : String
  pub path_type : String
  pub service_name : String
  pub number : ℕ

pub record IngressRule : Type 0 where
  pub host : String
  pub paths : List HttpPath

pub record IngressTls : Type 0 where
  pub hosts : List String
  pub secret_name : String

pub record Ingress : Type 0 where
  pub name : String
  pub namespace : String
  pub labels : Dict String
  pub annotations : Dict String
  pub ingress_class_name : Option String
  pub rules : List IngressRule
  pub tls : List IngressTls

-- `IngressMapper`; a `*networkingv1.IngressTLS` may be nil.
pub record IngressMapper : Type 0 where
  pub map_rule : RouteRequest → Result IngressRule
  pub map_tls : RouteRequest → Result (Option IngressTls)
  pub ingress_name : ℕ → String
  pub annotations : Dict String
  pub labels : Dict String
  pub ingress_class : String
  pub route_id : RouteRequest → String
  pub extract_route_id : IngressRule → String

-- The operations of a JSON patch that the code builds, each with its path:
-- add /spec/rules/- and /spec/tls/-, remove and replace /spec/rules/i and /spec/tls/i, and replace
-- /spec/rules and /spec/tls.
pub data JsonPatch : Type 0 where
  add_rule : IngressRule → JsonPatch
  add_tls : IngressTls → JsonPatch
  remove_rule : ℕ → JsonPatch
  remove_tls : ℕ → JsonPatch
  replace_rule : ℕ → IngressRule → JsonPatch
  replace_tls : ℕ → IngressTls → JsonPatch
  replace_rules : List IngressRule → JsonPatch
  replace_tls_list : List IngressTls → JsonPatch

-- The client for the Ingresses of a namespace: `list` takes the label selector, `delete` and
-- `patch` a name.
pub record IngressApi (W : Type 0) : Type 0 where
  pub list : String → String → Action W (List Ingress)
  pub create : String → Ingress → Action W Ingress
  pub delete : String → String → Action W (Unit {0})
  pub patch : String → String → List JsonPatch → Action W (Unit {0})
  pub is_not_found : Error → Bool

-- `IngressProvisioner` with its `config`. `max_routes_per_ingress` is an int that is taken to be
-- at least 0.
pub record IngressProvisioner (W : Type 0) : Type 0 where
  pub api : IngressApi W
  pub mapper : IngressMapper
  pub namespace : String
  pub max_routes_per_ingress : ℕ
  pub management_label : String
  pub management_value : String
