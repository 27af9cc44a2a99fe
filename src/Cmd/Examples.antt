-- ===== src/Cmd/Examples.antt =====
-- The theorems on the application's mappers at concrete requests, documents and events.
use dynamic_routes_provision.Base.{
  ◌≢◌, any, ◌==◌, String, ℕ, ◌≡◌, refl, true, false, none, some, List, [], ◌∷◌, suc, eq_iff,
}
use dynamic_routes_provision.Core.Result.{Result, ok, err, Action, errorf, raise, pure}
use dynamic_routes_provision.Core.Route.{RouteRequest, RouteEvent, Backend, Certificate}
use dynamic_routes_provision.Core.Interfaces.{RouteProvisioner}
use dynamic_routes_provision.Core.Orchestrator.{Orchestrator, handle_event}
use dynamic_routes_provision.Impl.CertNone.{none_issuer}
use dynamic_routes_provision.Impl.ProvisionerIngress.Types.{
  Ingress, IngressProvisioner, IngressRule,
}
use dynamic_routes_provision.Impl.ProvisionerIngress.Patches.{
  list_managed_ingresses, label_selector,
}
use dynamic_routes_provision.Impl.ProvisionerIngress.Single.{deprovision}
use dynamic_routes_provision.Impl.ProvisionerIngress.Examples.{api, ingress}
use dynamic_routes_provision.Cmd.ChallengeServer.{new, listening, handle_challenge, present}
use dynamic_routes_provision.Cmd.ChallengeServer.Tokens.{
  presents, cleans, calls, latest, handle_challenge-latest, present-unserved,
}
use dynamic_routes_provision.Cmd.Names.{dashed}
use dynamic_routes_provision.Impl.ProvisionerIngress.Removal.{batch_deprovision}
use dynamic_routes_provision.Impl.ProvisionerIngress.Removal.Lists.{rules_in}
use dynamic_routes_provision.Impl.ProvisionerIngress.Removal.Contract.{IsStore}
use dynamic_routes_provision.Cmd.IngressMapper as Ingresses
use dynamic_routes_provision.Cmd.IngressMapper.{
  IngressMapper, to_ingress_mapper, default_secret_name,
}
use dynamic_routes_provision.Cmd.IngressMapper.Identity.{
  extract_route_id-map_rule, route_id-collides,
}
use dynamic_routes_provision.Cmd.NetscalerMapper.{provision_ops, deprovision_ops}
use dynamic_routes_provision.Cmd.NetscalerMapper.Order.{
  ready, added, deleted, provision_ops-ready, services_left,
}
use dynamic_routes_provision.Cmd.MongoMapper.{
  text, Document, ChangeEvent, MongoMapper, string_of, shown, event_type_of, map_document,
  map_event,
}
use dynamic_routes_provision.Cmd.MongoMapper.Agreement.{
  stamped, map_event-map_document, map_event-delete_ignored,
}

abbrev web : Backend
web = record { service_name = "web"; port = 80; weight = 1 }

abbrev request_for : String → RouteRequest
request_for host = record {
  id = "1";
  host = host;
  path = "/";
  backends = web ∷ web ∷ [];
  tls = true;
  metadata = [];
  created_at = 0;
}

abbrev rule : IngressRule
rule = record {
  host = "a.example";
  paths = record { path = "/"; path_type = "Prefix"; service_name = "web"; number = 80 } ∷ [];
}

extract_route_id-map_rule_example :
    Ingresses.extract_route_id rule ≡ Ingresses.route_id (request_for "a.example")
unfolding Ingresses.map_rule Ingresses.first_backend Ingresses.rule_for Ingresses.int32
extract_route_id-map_rule_example = extract_route_id-map_rule (request_for "a.example") rule refl

abbrev cert : Certificate
cert = record {
  host = "a.example";
  cert_pem = 1 ∷ [];
  key_pem = 2 ∷ [];
  ca_cert_pem = [];
  not_before = 0;
  not_after = 9;
  issuer_name = "inner";
}

abbrev base64 : List ℕ → String
base64 bytes = "AQ=="

provision_ops-ready_example :
    ready [] (provision_ops base64 (request_for "a.example") (some cert)) ≡ true
provision_ops-ready_example = provision_ops-ready base64 (request_for "a.example") (some cert)

services_left_example :
    (added "service" (provision_ops base64 (request_for "a.example") (some cert)) ≡ 2)
    × (deleted "service" (deprovision_ops "routes-a-example") ≡ 0)
services_left_example =
    services_left base64 (request_for "a.example") (some cert) "routes-a-example"

abbrev mongo : MongoMapper
mongo = record { url_field = "url"; path = "/"; tls = true; backends = web ∷ [] }

abbrev hostname : String → Result String
hostname url = ok "a.example"

abbrev workspace : Document
workspace key = text "https://a.example/x"

abbrev change : String → ChangeEvent
change op = record {
  operation_type = text op;
  document_key = some workspace;
  full_document = some workspace;
}

map_event-map_document_example :
    (map_event hostname mongo 7 (change "update")
      ≡ stamped 7 (event_type_of hostname mongo "update") (map_document hostname mongo workspace))
    × ((req : RouteRequest)
        → map_document hostname mongo workspace ≡ ok (some req)
        → (hostname (string_of (workspace "url")) ≡ ok req.host) × (req.host ≢ ""))
unfolding string_of
map_event-map_document_example =
    map_event-map_document hostname mongo 7 (change "update") workspace
      (λ e. let same : false ≡ true = (eq_iff "update" "delete").1 e in cc) refl

abbrev settings : IngressMapper
settings = record {
  secret_name_func = default_secret_name;
  ingress_class_name = "nginx";
  extra_annotations = [];
}

abbrev provisioner : IngressProvisioner (List Ingress)
provisioner = record {
  api = api;
  mapper = to_ingress_mapper settings;
  namespace = "ns";
  max_routes_per_ingress = 10;
  management_label = "managed-by";
  management_value = "routes";
}

abbrev routes : RouteProvisioner (List Ingress)
routes = record {
  name = "ingress-k8s";
  provision = λ req c. raise (errorf "unused");
  deprovision = deprovision provisioner;
  list = pure [];
  batch_provision = λ reqs certs. pure [];
  batch_deprovision = λ ids. pure tt;
}

abbrev orchestrator : Orchestrator (List Ingress)
orchestrator = record {
  issuer = none_issuer;
  provisioner = routes;
  reconciler = none;
  reconcile_interval = 0;
  trigger = true;
}

abbrev stored : List Ingress
stored = ingress "routes-0" ("a.example" ∷ []) ∷ []

abbrev two_hosts : List Ingress
two_hosts = ingress "routes-0" ("a.example" ∷ "a-example" ∷ "b.example" ∷ []) ∷ []

provisioner-IsStore : IsStore provisioner
unfolding label_selector
provisioner-IsStore = record {
  store = λ w. w;
  list_lem = λ w. refl;
  delete_ok = λ name w there. rw there refl;
  delete_lem = λ name w there. rw there refl;
  replace_ok = λ name rules tls w there. rw there refl;
  replace_lem = λ name rules tls w there. rw there refl;
  replace_fails = λ name rules tls w bare. (errorf "no such path", rw bare refl, rw bare refl);
}

route_id-collides_example :
    ((batch_deprovision provisioner (Ingresses.route_id (request_for "a.example") ∷ []) two_hosts).0
      ≡ ok tt)
    × (any
          (λ rule. rule.host == "a-example")
          (rules_in
            (batch_deprovision provisioner
              (Ingresses.route_id (request_for "a.example") ∷ [])
              two_hosts).1)
        ≡ false)
unfolding provisioner-IsStore dashed
route_id-collides_example =
    route_id-collides provisioner provisioner-IsStore settings (request_for "a.example") "a-example"
      two_hosts refl refl (refl, tt) ((λ x. refl), tt)

map_event-delete_ignored_example :
    (ev : RouteEvent) × (map_event hostname mongo 7 (change "delete") ≡ ok (some ev))
    × (handle_event orchestrator ev stored ≡ (ok tt, stored))
unfolding string_of shown list_managed_ingresses label_selector
map_event-delete_ignored_example =
    map_event-delete_ignored hostname mongo orchestrator provisioner settings 7 (change "delete")
      workspace stored stored stored refl refl refl refl refl refl

-- The world counts the attempts to bind a port, and none succeeds.
abbrev refused : ℕ → Action ℕ (Unit {0})
refused port n = (err (errorf "permission denied"), suc n)

handle_challenge-latest_example :
    handle_challenge "/.well-known/acme-challenge/t"
      (calls refused
        (presents "t" "old" ∷ presents "u" "other" ∷ presents "t" "new" ∷ cleans "u" ∷ [])
        (new 80, 0)).0
    ≡ some "new"
unfolding latest
handle_challenge-latest_example =
    handle_challenge-latest refused
      (presents "t" "old" ∷ presents "u" "other" ∷ presents "t" "new" ∷ cleans "u" ∷ []) 80 0
      "/.well-known/acme-challenge/t"

present-unserved_example :
    let x = calls refused (cleans "t" ∷ []) (present refused "t" "a" (new 80, 0)).1 in
    ((present refused "t" "a" (new 80, 0)).0 ≡ listening 80 (err (errorf "permission denied")))
    × ((present refused "u" "b" x).0 ≡ ok tt)
    × ((present refused "u" "b" x).1.1 ≡ 1)
present-unserved_example =
    present-unserved refused 80 "t" "a" "u" "b" (cleans "t" ∷ []) 0 1 (errorf "permission denied")
      refl
