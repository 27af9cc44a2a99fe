-- ===== src/Impl/ProvisionerIngress/Batch/Examples.antt =====
-- The theorem on the rules that `BatchProvision` stores, at an API server that stores each rule with
-- the name of its Ingress, and shows each as an Ingress of its own.
use mathlib.Core.List.{Perm}
use mathlib.Core.List.Perm
use dynamic_routes_provision.Base.{
  String, ◌≡◌, refl, ap, true, false, none, List, [], ◌∷◌, ◌++◌, map, eqb, if◌then◌else◌,
}
use dynamic_routes_provision.Core.Result.{ok, err, errorf}
use dynamic_routes_provision.Core.Result.Rules.{ok-injective}
use dynamic_routes_provision.Core.Route.{RouteRequest, ProvisionedRoute}
use dynamic_routes_provision.Core.Dict.{lookup}
use dynamic_routes_provision.Core.Interfaces.{cert_for}
use dynamic_routes_provision.Impl.ProvisionerIngress.Types.{
  IngressRule, IngressTls, Ingress, JsonPatch, add_rule, add_tls, remove_rule, remove_tls,
  replace_rule, replace_tls, replace_rules, replace_tls_list, IngressProvisioner,
}
use dynamic_routes_provision.Impl.ProvisionerIngress.Patches.{
  add_rules_patches, list_managed_ingresses, label_selector, create_ingress_with_rules, new_ingress,
  class_name, cert_id, build_provisioned_route, apply_json_patch,
}
use dynamic_routes_provision.Impl.ProvisionerIngress.Single.{tls_entry}
use dynamic_routes_provision.Impl.ProvisionerIngress.Batch.{
  sort_by_rules, insert_by_rules, rules_of, tls_of, map_route, map_routes, fill_existing,
  create_buckets, results_of, patch_batch, apply_batches, finish, batch_provision,
}
use dynamic_routes_provision.Impl.ProvisionerIngress.Batch.Answers.{answer, expected}
use dynamic_routes_provision.Impl.ProvisionerIngress.Batch.Places.{Place, at_name, IsRuleStore}
use dynamic_routes_provision.Impl.ProvisionerIngress.Batch.Steps.{gateways}
use dynamic_routes_provision.Impl.ProvisionerIngress.Batch.Placed.{batch_provision-places}

abbrev rules_added : List JsonPatch → List IngressRule
rules_added [] = []
rules_added (add_rule r ∷ rest) = r ∷ rules_added rest
rules_added (add_tls t ∷ rest) = rules_added rest
rules_added (remove_rule n ∷ rest) = rules_added rest
rules_added (remove_tls n ∷ rest) = rules_added rest
rules_added (replace_rule n r ∷ rest) = rules_added rest
rules_added (replace_tls n t ∷ rest) = rules_added rest
rules_added (replace_rules rs ∷ rest) = rules_added rest
rules_added (replace_tls_list ts ∷ rest) = rules_added rest

no_rules : (ts : List IngressTls) → rules_added (map add_tls ts) ≡ []
no_rules [] = refl
no_rules (t ∷ ts) = no_rules ts

just_rules :
    (rs : List IngressRule) (ts : List IngressTls) → rules_added (add_rules_patches rs ts) ≡ rs
unfolding add_rules_patches
just_rules [] ts = no_rules ts
just_rules (r ∷ rs) ts = ap (λ (l : List IngressRule). r ∷ l) (just_rules rs ts)

abbrev rule_for : String → IngressRule
rule_for host = record { host = host; paths = [] }

abbrev shown : Place → Ingress
shown (name, rule) = record {
  name = name;
  namespace = "ns";
  labels = [];
  annotations = [];
  ingress_class_name = none;
  rules = rule ∷ [];
  tls = [];
}

abbrev two_each : IngressProvisioner (List Place)
two_each = record {
  api = record {
    list = λ namespace selector w. (ok (map shown w), w);
    create = λ namespace ing w. (ok ing, w ++ at_name ing.name ing.rules);
    delete = λ namespace name w. (err (errorf "unused"), w);
    patch = λ namespace name patches w. (ok tt, w ++ at_name name (rules_added patches));
    is_not_found = λ e. true;
  };
  mapper = record {
    map_rule = λ req. ok (rule_for req.host);
    map_tls = λ req. ok none;
    ingress_name = λ index. if eqb index 0 then "routes-0" else "routes-1";
    annotations = [];
    labels = [];
    ingress_class = "nginx";
    route_id = λ req. req.host;
    extract_route_id = λ rule. rule.host;
  };
  namespace = "ns";
  max_routes_per_ingress = 2;
  management_label = "managed-by";
  management_value = "routes";
}

two_each-IsRuleStore : IsRuleStore two_each
unfolding label_selector
two_each-IsRuleStore = record {
  placed = λ w. w;
  list_lem = λ w. refl;
  create_lem = λ ing made w e.
      rw (ap (λ (i : Ingress). i.name) (ok-injective e))
        (Perm.refl (w ++ at_name made.name ing.rules));
  patch_lem = λ name rules tls w e. rw (just_rules rules tls) (Perm.refl (w ++ at_name name rules));
}

abbrev request_for : String → RouteRequest
request_for host = record {
  id = "";
  host = host;
  path = "/";
  backends = [];
  tls = false;
  metadata = [];
  created_at = 0;
}

abbrev answered : String → String → ProvisionedRoute
answered host gateway = record {
  route_id = host;
  host = host;
  gateway_id = gateway;
  certificate_id = "";
  status = "active";
  provider_name = "ingress-k8s";
}

abbrev requests : List RouteRequest
requests = request_for "a.example" ∷ request_for "b.example" ∷ []

abbrev stored_before : List Place
stored_before = ("routes-0", rule_for "c.example") ∷ []

-- The first goes to the Ingress that has room, the second to a new one, which is created first.
abbrev stored_after : List Place
stored_after =
    ("routes-0", rule_for "c.example")
    ∷ ("routes-1", rule_for "b.example")
    ∷ ("routes-0", rule_for "a.example")
    ∷ []

abbrev answers : List ProvisionedRoute
answers = answered "a.example" "ns/routes-0" ∷ answered "b.example" "ns/routes-1" ∷ []

batch_provision-places_example :
    (new : List Place) × Perm stored_after (stored_before ++ new)
    × (map two_each.mapper.map_rule requests ≡ map ok (map (λ x. x.1) new))
    × (map (λ a. a.gateway_id) answers ≡ gateways two_each two_each-IsRuleStore new)
    × (map answer answers ≡ map (expected two_each.mapper) requests)
unfolding batch_provision map_routes map_route tls_entry list_managed_ingresses sort_by_rules
    insert_by_rules fill_existing create_buckets create_ingress_with_rules new_ingress class_name
    rules_of tls_of finish apply_batches results_of patch_batch build_provisioned_route cert_id
    cert_for lookup label_selector two_each-IsRuleStore add_rules_patches apply_json_patch
batch_provision-places_example =
    batch_provision-places two_each two_each-IsRuleStore 2 requests [] stored_before stored_after
      answers refl
