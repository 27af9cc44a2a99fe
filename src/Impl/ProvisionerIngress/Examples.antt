-- ===== src/Impl/ProvisionerIngress/Examples.antt =====
-- The theorems on Ingresses at an API server in memory.
use dynamic_routes_provision.Base.{
  String, ◌⧺◌, ◌≡◌, ◌≢◌, refl, Bool, true, false, not, ◌&&◌, none, some, List, [], ◌∷◌, ◌++◌, map,
  if◌then◌else◌, ◌==◌, eqb, any, filter, arith,
}
use dynamic_routes_provision.Core.Dict.{lookup, has}
use dynamic_routes_provision.Core.Result.{Error, ok, err, errorf, wrap}
use dynamic_routes_provision.Core.Route.{RouteRequest, ProvisionedRoute}
use dynamic_routes_provision.Core.Interfaces.{cert_for}
use dynamic_routes_provision.Impl.ProvisionerIngress.Types.{
  IngressRule, IngressTls, Ingress, IngressMapper, JsonPatch, add_rule, add_tls, remove_rule,
  remove_tls, replace_rule, replace_tls, replace_rules, replace_tls_list, IngressApi,
  IngressProvisioner,
}
use dynamic_routes_provision.Impl.ProvisionerIngress.Patches.{
  list_managed_ingresses, label_selector, create_ingress_with_rules, new_ingress, class_name,
  cert_id, build_provisioned_route,
}
use dynamic_routes_provision.Impl.ProvisionerIngress.Single.{tls_entry, provision}
use dynamic_routes_provision.Impl.ProvisionerIngress.Single.Search.{provision-name_taken}
use dynamic_routes_provision.Impl.ProvisionerIngress.Batch.{
  MappedRoute, fill_existing, sort_by_rules, rules_of, tls_of, map_route, map_routes,
  create_buckets, results_of, patch_batch, apply_batches, finish, batch_provision,
}
use dynamic_routes_provision.Impl.ProvisionerIngress.Batch.Packing.{
  FitsIn, routes_in, fill_existing_complete, fill_existing-FitsIn,
}
use dynamic_routes_provision.Impl.ProvisionerIngress.Batch.Answers.{
  answer, batch_provision-answers, batch_provision-ends,
}
use dynamic_routes_provision.Impl.ProvisionerIngress.Removal.{
  removal_set, split_ingress, keep_tls, batch_deprovision,
}
use dynamic_routes_provision.Impl.ProvisionerIngress.Removal.Kept.{
  split_ingress-lem, names_host, names_host-keep_tls,
}
use dynamic_routes_provision.Impl.ProvisionerIngress.Removal.Lists.{named, rules_in}
use dynamic_routes_provision.Impl.ProvisionerIngress.Removal.Contract.{IsStore, with_tls}
use dynamic_routes_provision.Impl.ProvisionerIngress.Removal.Store.{batch_deprovision-rules}
use dynamic_routes_provision.Impl.ProvisionerIngress.Removal.NoTls.{batch_deprovision-no_tls}

abbrev pub patch_one : JsonPatch → Ingress → Ingress
patch_one (add_rule r) i = record i { rules = i.rules ++ r ∷ [] }
patch_one (add_tls t) i = record i { tls = i.tls ++ t ∷ [] }
patch_one (remove_rule n) i = i
patch_one (remove_tls n) i = i
patch_one (replace_rule n r) i = i
patch_one (replace_tls n t) i = i
patch_one (replace_rules rs) i = record i { rules = rs }
patch_one (replace_tls_list ts) i = record i { tls = ts }

abbrev pub patch_all : List JsonPatch → Ingress → Ingress
patch_all [] i = i
patch_all (p ∷ rest) i = patch_all rest (patch_one p i)

abbrev pub replaces_tls : List JsonPatch → Bool
replaces_tls [] = false
replaces_tls (replace_tls_list ts ∷ rest) = true
replaces_tls (add_rule r ∷ rest) = replaces_tls rest
replaces_tls (add_tls t ∷ rest) = replaces_tls rest
replaces_tls (remove_rule n ∷ rest) = replaces_tls rest
replaces_tls (remove_tls n ∷ rest) = replaces_tls rest
replaces_tls (replace_rule n r ∷ rest) = replaces_tls rest
replaces_tls (replace_tls n t ∷ rest) = replaces_tls rest
replaces_tls (replace_rules rs ∷ rest) = replaces_tls rest

-- The world is the list of the Ingresses; a name that is taken is refused, and so is replacing the
-- TLS entries where there are none.
abbrev pub api : IngressApi (List Ingress)
api = record {
  list = λ namespace selector w. (ok w, w);
  create = λ namespace ing w.
      if any (λ i. i.name == ing.name) w
      then (err (errorf "already exists"), w)
      else (ok ing, w ++ ing ∷ []);
  delete = λ namespace name w.
      if named name w
      then (ok tt, filter (λ i. not (i.name == name)) w)
      else (err (errorf "not found"), w);
  patch = λ namespace name patches w.
      if replaces_tls patches && not (with_tls name w)
      then (err (errorf "no such path"), w)
      else (ok tt, map (λ i. if i.name == name then patch_all patches i else i) w);
  is_not_found = λ e. true;
}

abbrev pub rule_for : String → IngressRule
rule_for host = record {
  host = host;
  paths = record { path = "/"; path_type = "Prefix"; service_name = "web"; number = 80 } ∷ [];
}

abbrev pub tls_for : String → IngressTls
tls_for host = record { hosts = host ∷ []; secret_name = "tls-" ⧺ host }

abbrev mapper : IngressMapper
mapper = record {
  map_rule = λ req. ok (rule_for req.host);
  map_tls = λ req. ok (some (tls_for req.host));
  ingress_name = λ index. if eqb index 0 then "routes-0" else "routes-1";
  annotations = [];
  labels = [];
  ingress_class = "nginx";
  route_id = λ req. req.host;
  extract_route_id = λ rule. rule.host;
}

abbrev provisioner : IngressProvisioner (List Ingress)
provisioner = record {
  api = api;
  mapper = mapper;
  namespace = "ns";
  max_routes_per_ingress = 1;
  management_label = "managed-by";
  management_value = "routes";
}

abbrev pub request_for : String → RouteRequest
request_for host = record {
  id = "";
  host = host;
  path = "/";
  backends = [];
  tls = true;
  metadata = [];
  created_at = 0;
}

abbrev pub ingress : String → List String → Ingress
ingress name hosts = record {
  name = name;
  namespace = "ns";
  labels = [];
  annotations = [];
  ingress_class_name = some "nginx";
  rules = map rule_for hosts;
  tls = map tls_for hosts;
}

abbrev two_ingresses : List Ingress
two_ingresses =
    ingress "routes-0" ("a.example" ∷ "b.example" ∷ []) ∷ ingress "routes-1" ("c.example" ∷ []) ∷ []

abbrev mapped_for : String → MappedRoute
mapped_for host = record { req = request_for host; rule = rule_for host; tls = none }

abbrev three_mapped : List MappedRoute
three_mapped = mapped_for "x.example" ∷ mapped_for "y.example" ∷ mapped_for "z.example" ∷ []

fill_existing_complete_example :
    routes_in (fill_existing 2 two_ingresses three_mapped).0
      ++ (fill_existing 2 two_ingresses three_mapped).1
    ≡ three_mapped
fill_existing_complete_example = fill_existing_complete 2 two_ingresses three_mapped

fill_existing-FitsIn_example : FitsIn 2 two_ingresses (fill_existing 2 two_ingresses three_mapped).0
fill_existing-FitsIn_example = fill_existing-FitsIn 2 two_ingresses three_mapped

abbrev answered : String → String → ProvisionedRoute
answered host name = record {
  route_id = host;
  host = host;
  gateway_id = "ns/" ⧺ name;
  certificate_id = "";
  status = "active";
  provider_name = "ingress-k8s";
}

abbrev two_requests : List RouteRequest
two_requests = request_for "a.example" ∷ request_for "b.example" ∷ []

batch_provision-answers_example :
    map answer (answered "a.example" "routes-0" ∷ answered "b.example" "routes-1" ∷ [])
    ≡ ("a.example", "a.example") ∷ ("b.example", "b.example") ∷ []
unfolding batch_provision map_routes map_route tls_entry list_managed_ingresses sort_by_rules
    fill_existing create_buckets create_ingress_with_rules new_ingress class_name rules_of tls_of
    finish apply_batches results_of patch_batch build_provisioned_route cert_id cert_for lookup
    label_selector
batch_provision-answers_example =
    batch_provision-answers provisioner 2 two_requests [] []
      {out = answered "a.example" "routes-0" ∷ answered "b.example" "routes-1" ∷ []} refl

batch_provision-ends_example :
    (batch_provision provisioner 2 two_requests [] two_ingresses).0 ≢ ok none
batch_provision-ends_example =
    batch_provision-ends provisioner 2 two_requests [] two_ingresses (omega arith) (omega arith)

split_ingress-lem_example :
    ((split_ingress mapper
        (removal_set ("a.example" ∷ []) [])
        (ingress "routes-0" ("a.example" ∷ "b.example" ∷ []))).keep_rules
      ≡ rule_for "b.example" ∷ [])
    × ((split_ingress mapper
          (removal_set ("a.example" ∷ []) [])
          (ingress "routes-0" ("a.example" ∷ "b.example" ∷ []))).changed
        ≡ true)
split_ingress-lem_example =
    split_ingress-lem mapper ("a.example" ∷ [])
      (ingress "routes-0" ("a.example" ∷ "b.example" ∷ []))

names_host-keep_tls_example :
    names_host "a.example"
      (keep_tls (("a.example", tt) ∷ []) (tls_for "a.example" ∷ tls_for "b.example" ∷ []))
    ≡ false
unfolding has
names_host-keep_tls_example =
    names_host-keep_tls "a.example" (("a.example", tt) ∷ [])
      (tls_for "a.example" ∷ tls_for "b.example" ∷ [])

pub memory-IsStore : IsStore provisioner
memory-IsStore = record {
  store = λ w. w;
  list_lem = λ w. refl;
  delete_ok = λ name w there. rw there refl;
  delete_lem = λ name w there. rw there refl;
  replace_ok = λ name rules tls w there. rw there refl;
  replace_lem = λ name rules tls w there. rw there refl;
  replace_fails = λ name rules tls w bare. (errorf "no such path", rw bare refl, rw bare refl);
}

batch_deprovision-rules_example :
    ((batch_deprovision provisioner ("a.example" ∷ "c.example" ∷ []) two_ingresses).0 ≡ ok tt)
    × (rules_in (batch_deprovision provisioner ("a.example" ∷ "c.example" ∷ []) two_ingresses).1
        ≡ rule_for "b.example" ∷ [])
unfolding memory-IsStore
batch_deprovision-rules_example =
    batch_deprovision-rules provisioner memory-IsStore ("a.example" ∷ "c.example" ∷ [])
      two_ingresses (refl, (refl, tt)) ((λ x. refl), ((λ x. refl), tt))

-- Its routes are all without TLS.
abbrev bare : Ingress
bare = record (ingress "routes-0" ("a.example" ∷ "b.example" ∷ [])) { tls = [] }

batch_deprovision-no_tls_example :
    (e : Error) × ((batch_deprovision provisioner ("a.example" ∷ []) (bare ∷ [])).0
      ≡ err (wrap "patch ingress routes-0" e))
    × (rules_in (batch_deprovision provisioner ("a.example" ∷ []) (bare ∷ [])).1
        ≡ rule_for "a.example" ∷ rule_for "b.example" ∷ [])
unfolding memory-IsStore
batch_deprovision-no_tls_example =
    batch_deprovision-no_tls provisioner memory-IsStore ("a.example" ∷ []) [] bare [] (bare ∷ [])
      refl (refl, tt) tt (refl, (λ e. cc)) refl

-- The Ingress routes-0 was deleted; the next one is to be called routes-1.
provision-name_taken_example :
    provision provisioner
      (request_for "z.example")
      none
      (ingress "routes-1" ("c.example" ∷ []) ∷ [])
    ≡ (
      err (wrap "create ingress" (errorf "already exists")),
      ingress "routes-1" ("c.example" ∷ []) ∷ [],
    )
unfolding tls_entry list_managed_ingresses label_selector new_ingress class_name
provision-name_taken_example =
    provision-name_taken provisioner (request_for "z.example") none (rule_for "z.example")
      (some (tls_for "z.example")) (ingress "routes-1" ("c.example" ∷ []) ∷ [])
      (ingress "routes-1" ("c.example" ∷ []) ∷ []) (ingress "routes-1" ("c.example" ∷ []) ∷ [])
      (ingress "routes-1" ("c.example" ∷ []) ∷ []) (errorf "already exists") refl refl refl refl
      (refl, tt) refl
