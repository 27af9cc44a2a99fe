-- ===== src/Impl/SourceMongo/Examples.antt =====
-- The theorem on the change stream, at three changes of which the second cannot be mapped.
use dynamic_routes_provision.Base.{
  String, ◌≡◌, ◌==◌, refl, false, none, some, [], ◌∷◌, if◌then◌else◌,
}
use dynamic_routes_provision.Core.Result.{errorf, wrap, ok, err}
use dynamic_routes_provision.Core.Route.{route_created, RouteEvent}
use dynamic_routes_provision.Impl.SourceMongo.{DocumentMapper, taken, forward}
use dynamic_routes_provision.Impl.SourceMongo.Stream.{chosen, forward-stops}

abbrev event_of : String → RouteEvent
event_of host = record {
  event_type = route_created;
  route = record {
    id = host;
    host = host;
    path = "/";
    backends = [];
    tls = false;
    metadata = [];
    created_at = 0;
  };
  raw_data = [];
}

abbrev by_host : DocumentMapper String String
by_host = record {
  map_event = λ host. if host == "" then err (errorf "no host") else ok (some (event_of host));
  map_document = λ host. ok none;
}

forward-stops_example :
    forward by_host (ok ("a.example", taken) ∷ ok ("", taken) ∷ ok ("b.example", taken) ∷ []) none
    ≡ record {
      events = event_of "a.example" ∷ [];
      outcome = err (wrap "map change event" (errorf "no host"));
    }
unfolding chosen
forward-stops_example =
    forward-stops by_host (("a.example", some (event_of "a.example")) ∷ []) "" taken
      (ok ("b.example", taken) ∷ []) none (errorf "no host") (refl, tt) refl
