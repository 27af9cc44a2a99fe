-- ===== src/Impl/ProvisionerIngress/Patches.antt =====
-- The patches of impl/provisioner-ingress/provisioner.go, and the calls that send them.
use dynamic_routes_provision.Base.{
  String, ℕ, suc, ◌⧺◌, Option, none, some, List, [], ◌∷◌, ◌++◌, map, ◌==◌, if◌then◌else◌, any,
}
use dynamic_routes_provision.Core.Result.{wrap, Action, pure, raise, try_catch, wrapping}
use dynamic_routes_provision.Core.Route.{Certificate, ProvisionedRoute}
use dynamic_routes_provision.Impl.ProvisionerIngress.Types.{
  IngressRule, IngressTls, Ingress, JsonPatch, add_rule, add_tls, remove_rule, remove_tls,
  replace_rule, replace_tls, replace_rules, replace_tls_list, IngressProvisioner,
}

-- The index of the first TLS entry that names the host, counted from `i`.
unfoldable pub find_tls : String → ℕ → List IngressTls → Option ℕ
find_tls host i [] = none
find_tls host i (t ∷ rest) =
    let later = find_tls host (suc i) rest in if any (λ h. h == host) t.hosts then some i else later

-- `patchAddRule`
unfoldable pub add_rule_patches : IngressRule → Option IngressTls → List JsonPatch
add_rule_patches rule none = add_rule rule ∷ []
add_rule_patches rule (some tls) = add_rule rule ∷ add_tls tls ∷ []

-- `patchAddRules`
unfoldable pub add_rules_patches : List IngressRule → List IngressTls → List JsonPatch
add_rules_patches rules tls_entries = map add_rule rules ++ map add_tls tls_entries

unfoldable pub also_remove_tls : Option ℕ → List JsonPatch
also_remove_tls none = []
also_remove_tls (some i) = remove_tls i ∷ []

-- `patchRemoveRule`; `host` is that of the rule at the index.
unfoldable pub remove_rule_patches : Ingress → ℕ → String → List JsonPatch
unfolding find_tls also_remove_tls
remove_rule_patches ing rule_index host =
    remove_rule rule_index ∷ also_remove_tls (find_tls host 0 ing.tls)

-- `patchReplaceSpec`
unfoldable pub replace_spec_patches : List IngressRule → List IngressTls → List JsonPatch
replace_spec_patches rules tls = replace_rules rules ∷ replace_tls_list tls ∷ []

unfoldable pub update_tls : IngressTls → Option ℕ → List JsonPatch
update_tls tls none = add_tls tls ∷ []
update_tls tls (some i) = replace_tls i tls ∷ []

-- The patches of `updateRule`; `host` is that of the rule that is replaced.
unfoldable pub update_rule_patches :
    Ingress → ℕ → String → IngressRule → Option IngressTls → List JsonPatch
unfolding find_tls update_tls
update_rule_patches ing rule_index host rule none = replace_rule rule_index rule ∷ []
update_rule_patches ing rule_index host rule (some tls) =
    replace_rule rule_index rule ∷ update_tls tls (find_tls host 0 ing.tls)

module _ {W : Type 0} (p : IngressProvisioner W) where
  unfoldable pub label_selector : String
  label_selector = p.management_label ⧺ "=" ⧺ p.management_value

  unfoldable pub list_managed_ingresses : Action W (List Ingress)
  unfolding label_selector
  list_managed_ingresses = wrapping "list managed ingresses" (p.api.list p.namespace label_selector)

  -- Marshalling such patches does not fail.
  unfoldable pub apply_json_patch : String → List JsonPatch → Action W (Unit {0})
  apply_json_patch name patches = p.api.patch p.namespace name patches

  -- A missing Ingress counts as deleted.
  unfoldable pub delete_ingress : String → Action W (Unit {0})
  delete_ingress name =
      try_catch (p.api.delete p.namespace name)
        (λ e. if p.api.is_not_found e then pure tt else raise (wrap ("delete ingress " ⧺ name) e))
        pure

  unfoldable pub class_name : Option String
  class_name = if p.mapper.ingress_class == "" then none else some p.mapper.ingress_class

  unfoldable pub new_ingress : ℕ → List IngressRule → List IngressTls → Ingress
  unfolding class_name
  new_ingress index rules tls = record {
    name = p.mapper.ingress_name index;
    namespace = p.namespace;
    labels = p.mapper.labels;
    annotations = p.mapper.annotations;
    ingress_class_name = class_name;
    rules = rules;
    tls = tls;
  }

  unfoldable pub create_ingress_with_rules :
      ℕ → List IngressRule → List IngressTls → Action W Ingress
  unfolding new_ingress
  create_ingress_with_rules index rules tls =
      wrapping "create ingress" (p.api.create p.namespace (new_ingress index rules tls))

  unfoldable pub cert_id : Option Certificate → String
  cert_id none = ""
  cert_id (some cert) = cert.host

  unfoldable pub build_provisioned_route :
      String → String → String → Option Certificate → ProvisionedRoute
  unfolding cert_id
  build_provisioned_route route_id host ingress_name cert = record {
    route_id = route_id;
    host = host;
    gateway_id = p.namespace ⧺ "/" ⧺ ingress_name;
    certificate_id = cert_id cert;
    status = "active";
    provider_name = "ingress-k8s";
  }
