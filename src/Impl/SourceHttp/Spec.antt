-- ===== src/Impl/SourceHttp/Spec.antt =====
-- impl/source-http/source.go: the desired state that the API keeps, host by host.
use dynamic_routes_provision.Base.{
  String, ℕ, ◌≡◌, refl, ap, sym, ◌∙◌, false, not, ◌&&◌, Option, none, some, List, [], ◌∷◌,
  if◌then◌else◌, if_rule, ◌==◌, eq_iff, arith, filter, Bool-cases, inl, inr,
}
use dynamic_routes_provision.Core.Dict.{
  Dict, lookup, insert, delete, has, values, lookup-insert, lookup-delete, has-insert, has-delete,
}
use dynamic_routes_provision.Core.Route.{
  EventType, route_created, route_updated, route_deleted, other, RouteRequest, RouteEvent,
}
use dynamic_routes_provision.Impl.SourceHttp.{
  HttpSource, decoded, malformed, Request, post_event, get_events, get_routes, post_route,
  delete_route, starts, stops, takes, passes, sends, pass_from, pass_on, pick, send_picked, send,
  new, sync, put_route, list_routes, serve, serve_all, start, stop, take_one, take_from,
  handle_post_event, handle_get_events, handle_post_route, handle_delete_route, handle_get_routes,
}

-- A route put for its host, if it has one.
put_for : String → RouteRequest → Option RouteRequest → Option RouteRequest
put_for h r before = if (r.host == h) && not (h == "") then some r else before

remove_for : String → String → Option RouteRequest → Option RouteRequest
remove_for h host before = if host == h then none else before

event_for : String → EventType → RouteRequest → Option RouteRequest → Option RouteRequest
unfolding put_for remove_for
event_for h route_created r before = put_for h r before
event_for h route_updated r before = put_for h r before
event_for h route_deleted r before = remove_for h r.host before
event_for h (other name) r before = before

-- What a request makes of the route of a host.
request_for : String → Request → Option RouteRequest → Option RouteRequest
unfolding event_for
request_for h (post_event (decoded ev)) before = event_for h ev.event_type ev.route before
request_for h (post_event (malformed e)) before = before
request_for h get_events before = before
request_for h get_routes before = before
request_for h (post_route (decoded r)) before = put_for h r before
request_for h (post_route (malformed e)) before = before
request_for h (delete_route host) before = if host == "" then before else remove_for h host before
request_for h starts before = before
request_for h stops before = before
request_for h takes before = before
request_for h passes before = before
request_for h (sends n) before = before

pub latest : String → List Request → Option RouteRequest → Option RouteRequest
unfolding request_for
latest h [] before = before
latest h (r ∷ rest) before = latest h rest (request_for h r before)

-- Each route stands under its own host, and once.
Keyed : Dict RouteRequest → Type 0
unfolding has
Keyed [] = Unit
Keyed ((k, r) ∷ m) = (r.host ≡ k) × (has k m ≡ false) × Keyed m

Keyed-insert : (r : RouteRequest) (m : Dict RouteRequest) → Keyed m → Keyed (insert r.host r m)
unfolding Keyed insert
Keyed-insert r [] k = (refl, refl, tt)
Keyed-insert r ((j, v) ∷ m) k = elim (Bool-cases (j == r.host)) [
  | inl same ↦
      simp same (refl, ap (λ (i : String). has i m) (sym ((eq_iff j r.host).0 same)) ∙ k.1, k.2)
  | inr differ ↦ simp differ (
    k.0,
    has-insert r.host j r m ∙ ground (arith, eq_iff j r.host, eq_iff r.host j, differ, k.1),
    Keyed-insert r m k.2,
  )
]

Keyed-delete : (h : String) (m : Dict RouteRequest) → Keyed m → Keyed (delete h m)
unfolding Keyed delete
Keyed-delete h [] k = tt
Keyed-delete h ((j, v) ∷ m) k = elim (Bool-cases (j == h)) [
  | inl same ↦ simp same (Keyed-delete h m k.2)
  | inr differ ↦ simp differ (k.0, has-delete h j m ∙ ground (arith, k.1), Keyed-delete h m k.2)
]

unfoldable pub to_list {ℓ} : {A : Type ℓ} → Option A → List A
to_list none = []
to_list (some a) = a ∷ []

absent :
    (h : String) (m : Dict RouteRequest)
    → Keyed m
    → has h m ≡ false
    → filter (λ r. r.host == h) (values m) ≡ []
unfolding Keyed has values
absent h [] k none_ = refl
absent h ((j, v) ∷ m) k none_ = ground (arith, eq_iff v.host h, eq_iff j h, k.0, absent h m k.2)

-- The routes of a host among those listed.
filter-lookup :
    (h : String) (m : Dict RouteRequest)
    → Keyed m
    → filter (λ r. r.host == h) (values m) ≡ to_list (lookup h m)
unfolding Keyed values to_list lookup
filter-lookup h [] k = refl
filter-lookup h ((j, v) ∷ m) k = elim (Bool-cases (j == h)) [
  | inl same ↦
      simp (ap (λ (x : String). x == h) k.0, same)
        (ap (λ (r : List RouteRequest). v ∷ r)
          (absent h m k.2 (ap (λ (i : String). has i m) (sym ((eq_iff j h).0 same)) ∙ k.1)))
  | inr differ ↦ simp (ap (λ (x : String). x == h) k.0, differ) (filter-lookup h m k.2)
]

-- The routes after a request, for one host.
put-lookup :
    (h : String) (r : RouteRequest) (m : Dict RouteRequest)
    → lookup h (if r.host == "" then m else insert r.host r m) ≡ put_for h r (lookup h m)
unfolding put_for
put-lookup h r m =
    ground (arith, lookup-insert r.host h r m, eq_iff r.host h, eq_iff r.host "", eq_iff h "")

put-Keyed :
    (r : RouteRequest) (m : Dict RouteRequest)
    → Keyed m
    → Keyed (if r.host == "" then m else insert r.host r m)
put-Keyed r m k = if_rule Keyed (r.host == "") m (insert r.host r m) k (Keyed-insert r m k)

sync-lookup :
    (h : String) (t : EventType) (r : RouteRequest) (m : Dict RouteRequest)
    → lookup h (sync t r m) ≡ event_for h t r (lookup h m)
unfolding sync event_for remove_for
sync-lookup h route_created r m = put-lookup h r m
sync-lookup h route_updated r m = put-lookup h r m
sync-lookup h route_deleted r m = lookup-delete r.host h m
sync-lookup h (other name) r m = refl

sync-Keyed :
    (t : EventType) (r : RouteRequest) (m : Dict RouteRequest) → Keyed m → Keyed (sync t r m)
unfolding sync
sync-Keyed route_created r m k = put-Keyed r m k
sync-Keyed route_updated r m k = put-Keyed r m k
sync-Keyed route_deleted r m k = Keyed-delete r.host m k
sync-Keyed (other name) r m k = k

post_route-routes :
    (r : RouteRequest) (s : HttpSource)
    → (put_route r s).1.routes ≡ (if r.host == "" then s.routes else insert r.host r s.routes)
unfolding put_route
post_route-routes r s = ground arith

delete_route-routes :
    (host : String) (s : HttpSource)
    → (handle_delete_route host s).1.routes
      ≡ (if host == "" then s.routes else delete host s.routes)
unfolding handle_delete_route
delete_route-routes host s = ground arith

take_from-routes :
    (o : Option RouteEvent) (c : Option (List RouteEvent)) (s : HttpSource)
    → (take_from o c s).routes ≡ s.routes
unfolding take_from
take_from-routes none none s = refl
take_from-routes none (some []) s = refl
take_from-routes none (some (ev ∷ rest)) s = refl
take_from-routes (some held) c s = refl

pass_from-routes : (o : Option RouteEvent) (s : HttpSource) → (pass_from o s).routes ≡ s.routes
unfolding pass_from
pass_from-routes none s = refl
pass_from-routes (some ev) s = refl

pass_on-routes : (s : HttpSource) → (pass_on s).routes ≡ s.routes
unfolding pass_on
pass_on-routes s = pass_from-routes s.in_hand s

send_picked-routes :
    (o : Option ((Option ℕ × RouteEvent) × List (Option ℕ × RouteEvent))) (s : HttpSource)
    → (send_picked o s).routes ≡ s.routes
unfolding send_picked
send_picked-routes none s = refl
send_picked-routes (some x) s = refl

send-routes : (n : ℕ) (s : HttpSource) → (send n s).routes ≡ s.routes
unfolding send
send-routes n s = send_picked-routes (pick n s.sending) s

take_one-routes : (s : HttpSource) → (take_one s).routes ≡ s.routes
unfolding take_one
take_one-routes s = take_from-routes s.in_hand s.event_c s

serve-lookup :
    (h : String) (q : Request) (s : HttpSource)
    → lookup h (serve q s).routes ≡ request_for h q (lookup h s.routes)
unfolding serve request_for remove_for handle_post_event handle_post_route handle_get_events
    handle_get_routes start stop
serve-lookup h (post_event (decoded ev)) s = sync-lookup h ev.event_type ev.route s.routes
serve-lookup h (post_event (malformed e)) s = refl
serve-lookup h get_events s = refl
serve-lookup h get_routes s = refl
serve-lookup h (post_route (decoded r)) s =
    ap (lookup h) (post_route-routes r s) ∙ put-lookup h r s.routes
serve-lookup h (post_route (malformed e)) s = refl
serve-lookup h (delete_route host) s =
    ap (lookup h) (delete_route-routes host s) ∙ ground (arith, lookup-delete host h s.routes)
serve-lookup h starts s = refl
serve-lookup h stops s = refl
serve-lookup h takes s = ap (lookup h) (take_one-routes s)
serve-lookup h passes s = ap (lookup h) (pass_on-routes s)
serve-lookup h (sends n) s = ap (lookup h) (send-routes n s)

serve-Keyed : (q : Request) (s : HttpSource) → Keyed s.routes → Keyed (serve q s).routes
unfolding serve handle_post_event handle_post_route handle_get_events handle_get_routes start stop
serve-Keyed (post_event (decoded ev)) s k = sync-Keyed ev.event_type ev.route s.routes k
serve-Keyed (post_event (malformed e)) s k = k
serve-Keyed get_events s k = k
serve-Keyed get_routes s k = k
serve-Keyed (post_route (decoded r)) s k = rw (post_route-routes r s) (put-Keyed r s.routes k)
serve-Keyed (post_route (malformed e)) s k = k
serve-Keyed (delete_route host) s k =
    rw (delete_route-routes host s)
      (if_rule Keyed (host == "") s.routes (delete host s.routes) k (Keyed-delete host s.routes k))
serve-Keyed starts s k = k
serve-Keyed stops s k = k
serve-Keyed takes s k = rw (take_one-routes s) k
serve-Keyed passes s k = rw (pass_on-routes s) k
serve-Keyed (sends n) s k = rw (send-routes n s) k

serve_all-keeps :
    (h : String) (qs : List Request) (s : HttpSource)
    → Keyed s.routes
    → Keyed (serve_all qs s).routes
      × (lookup h (serve_all qs s).routes ≡ latest h qs (lookup h s.routes))
unfolding serve_all latest
serve_all-keeps h [] s k = (k, refl)
serve_all-keeps h (q ∷ rest) s k =
    let (keyed, same) = serve_all-keeps h rest (serve q s) (serve-Keyed q s k) in
    (keyed, same ∙ ap (latest h rest) (serve-lookup h q s))

-- After any requests to a new source, and whatever `Start` did meanwhile, the listed routes of a host
-- are the last route that a request put for the host, if no later request removed it: at most one, and
-- none for the empty host.
pub serve_all-latest :
    (qs : List Request) (h : String)
    → filter (λ r. r.host == h) (list_routes (serve_all qs new)) ≡ to_list (latest h qs none)
unfolding list_routes new Keyed lookup
serve_all-latest qs h =
    let (keyed, same) = serve_all-keeps h qs new tt in
    filter-lookup h (serve_all qs new).routes keyed ∙ ap to_list same
