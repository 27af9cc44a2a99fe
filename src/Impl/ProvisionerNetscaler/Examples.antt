-- ===== src/Impl/ProvisionerNetscaler/Examples.antt =====
-- The theorems on the Netscaler's operations at an appliance that fails at its second request.
use dynamic_routes_provision.Base.{
  String, ℕ, suc, ◌≡◌, refl, true, none, List, [], ◌∷◌, eqb, if◌then◌else◌,
}
use dynamic_routes_provision.Core.Dict.{lookup}
use dynamic_routes_provision.Core.Result.{ok, err, errorf, wrap, Action}
use dynamic_routes_provision.Core.Route.{RouteRequest, ProvisionedRoute}
use dynamic_routes_provision.Core.Reconciler.{diff}
use dynamic_routes_provision.Impl.ProvisionerNetscaler.Nitro.{
  add, str, NitroOperation, Request, Response, NitroClient, execute, execute_action, do_post,
  do_request, request, check_status, build_payload, set_all, list_resources,
}
use dynamic_routes_provision.Impl.ProvisionerNetscaler.{
  ResourceMapper, NetscalerProvisioner, failure, execute_all, provision, list, resources,
  listed_route, name_of,
}
use dynamic_routes_provision.Impl.ProvisionerNetscaler.Sequence.{provision-fails}
use dynamic_routes_provision.Impl.ProvisionerNetscaler.Listing.{list-readds_all}

-- The world counts the requests.
abbrev send_second_fails : Request → Action ℕ Response
send_second_fails req n =
    if eqb n 1
    then (err (errorf "reset"), 2)
    else (ok (record { status_code = 200; body = "" }), suc n)

abbrev client : NitroClient ℕ
client = record {
  endpoint = "https://ns";
  username = "u";
  password = "p";
  send = send_second_fails;
  url_error = λ url. none;
  decode = λ type body. ok ((("name", str "routes-a-example") ∷ []) ∷ []);
}

abbrev added : String → NitroOperation
added name = record {
  action = add;
  resource = record { type = "lbvserver"; name = name; properties = [] };
}

abbrev mapper : ResourceMapper
mapper = record {
  map_provision = λ req cert. ok (added "one" ∷ added "two" ∷ added "three" ∷ []);
  map_deprovision = λ id. ok [];
  route_id = λ req. req.host;
  map_batch_provision = λ reqs certs. ok [];
  map_batch_deprovision = λ ids. ok [];
  resource_type = "lbvserver";
  name_prefix = "routes-";
}

abbrev provisioner : NetscalerProvisioner ℕ
provisioner = record { client = client; mapper = mapper }

abbrev request_for : String → RouteRequest
request_for host = record {
  id = "";
  host = host;
  path = "/";
  backends = [];
  tls = true;
  metadata = [];
  created_at = 0;
}

provision-fails_example : provision provisioner (request_for "a.example") none 0 ≡ (
  err (wrap (failure provisioner 1 (added "two")) (wrap "nitro request failed" (errorf "reset"))),
  2,
)
unfolding execute_all execute execute_action do_post do_request request check_status build_payload
    set_all
provision-fails_example =
    provision-fails provisioner (request_for "a.example") none (added "one" ∷ []) (added "two")
      (added "three" ∷ []) (wrap "nitro request failed" (errorf "reset")) 0 1 2 refl refl refl

abbrev listed : List ProvisionedRoute
listed =
    record {
      route_id = "routes-a-example";
      host = "";
      gateway_id = "https://ns";
      certificate_id = "";
      status = "active";
      provider_name = "netscaler-cpx";
    }
    ∷ []

list-readds_all_example :
    diff (request_for "a.example" ∷ []) listed
    ≡ (request_for "a.example" ∷ [], "routes-a-example" ∷ [])
unfolding list resources list_resources request check_status listed_route name_of lookup
list-readds_all_example =
    list-readds_all provisioner 0 (request_for "a.example" ∷ []) listed refl ((λ e. cc), tt)
