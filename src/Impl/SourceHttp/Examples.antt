-- ===== src/Impl/SourceHttp/Examples.antt =====
-- The theorems on the HTTP source at a few requests.
use mathlib.Core.List.{Perm}
use dynamic_routes_provision.Base.{
  String, ◌≡◌, refl, true, none, some, List, [], ◌∷◌, ◌==◌, filter, arith,
}
use dynamic_routes_provision.Core.Route.{route_created, RouteRequest, RouteEvent}
use dynamic_routes_provision.Impl.SourceHttp.{
  Request, post_event, post_route, delete_route, takes, passes, sends, decoded, new, start,
  list_routes, serve_all,
}
use dynamic_routes_provision.Impl.SourceHttp.Spec.{latest, to_list, serve_all-latest}
use dynamic_routes_provision.Impl.SourceHttp.Channel.{posted, Running, kept, serve_all-forwards}

abbrev request_for : String → RouteRequest
request_for host = record {
  id = "";
  host = host;
  path = "/";
  backends = [];
  tls = true;
  metadata = [];
  created_at = 0;
}

abbrev creation : String → RouteEvent
creation host = record { event_type = route_created; route = request_for host; raw_data = [] }

abbrev requests : List Request
requests =
    post_route (decoded (request_for "a.example"))
    ∷ post_event (decoded (creation "b.example"))
    ∷ delete_route "a.example"
    ∷ post_event (decoded (creation "a.example"))
    ∷ sends 1
    ∷ takes
    ∷ sends 0
    ∷ passes
    ∷ []

serve_all-latest_example :
    filter (λ r. r.host == "a.example") (list_routes (serve_all requests new))
    ≡ to_list (latest "a.example" requests none)
serve_all-latest_example = serve_all-latest requests "a.example"

serve_all-forwards_example :
    (buffer : List RouteEvent) × ((serve_all requests (start new)).event_c ≡ some buffer)
    × Perm
        (kept (serve_all requests (start new)) buffer)
        (creation "b.example" ∷ creation "a.example" ∷ [])
unfolding posted Running new
serve_all-forwards_example =
    serve_all-forwards requests new (tt, (tt, (tt, (tt, (tt, (tt, (tt, (tt, tt)))))))) (omega arith)
      refl refl
