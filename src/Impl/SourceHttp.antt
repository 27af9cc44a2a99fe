-- ===== src/Impl/SourceHttp.antt =====
-- impl/source-http/source.go: the desired state and the events that the HTTP API keeps. The JSON
-- decoder is a parameter of a request: a handler gets what it returned. The mutex makes each handler
-- one step, but for `handlePostEvent`, whose send on the channel comes after `Unlock` and is a step of
-- its own. `Start` receives from the channel and sends to the orchestrator in two steps.
pub mod Spec
pub mod Sending
pub mod Channel
pub mod Examples
use mathlib.Core.Option
use dynamic_routes_provision.Base.{
  String, ℕ, zero, suc, eqb, Bool, true, false, Option, none, some, List, [], ◌∷◌, ◌++◌, length,
  ltb, if◌then◌else◌, ◌==◌,
}
use dynamic_routes_provision.Core.Dict.{Dict, lookup, insert, delete, has, values}
use dynamic_routes_provision.Core.Result.{ok}
use dynamic_routes_provision.Core.Route.{
  EventType, route_created, route_updated, route_deleted, other, RouteRequest, RouteEvent,
}
use dynamic_routes_provision.Core.Interfaces.{DesiredStateProvider}

-- `event_c` is none while no `Start` runs; else what its buffer holds. `channel` numbers the channels
-- that were made, so that it names the one of `event_c`. `sending` are the events of the handlers that
-- have unlocked the mutex and not yet sent, each with the channel that it read, if any. `in_hand` is
-- the event that `Start` has received and not yet sent on; `forwarded` is what it has sent on, in
-- order.
pub record HttpSource : Type 0 where
  pub routes : Dict RouteRequest
  pub events : List RouteEvent
  pub event_c : Option (List RouteEvent)
  pub channel : ℕ
  pub sending : List (Option ℕ × RouteEvent)
  pub in_hand : Option RouteEvent
  pub forwarded : List RouteEvent

pub data Status : Type 0 where
  status_ok created accepted no_content bad_request not_found : Status

-- What a handler writes: an error has its text, an answer what is encoded.
pub data Answer : Type 0 where
  problem : Status → String → Answer
  event_answer : Status → RouteEvent → Answer
  route_answer : Status → RouteRequest → Answer
  events_answer : List RouteEvent → Answer
  routes_answer : List RouteRequest → Answer
  empty : Status → Answer

-- What `Decode` returns: a value, or an error with its text.
pub data Decoded (A : Type 0) : Type 0 where
  decoded : A → Decoded A
  malformed : String → Decoded A

unfoldable pub new : HttpSource
new = record {
  routes = [];
  events = [];
  event_c = none;
  channel = 0;
  sending = [];
  in_hand = none;
  forwarded = [];
}

-- The `switch` on the event's type.
sync : EventType → RouteRequest → Dict RouteRequest → Dict RouteRequest
unfolding insert delete
sync route_created r routes = if r.host == "" then routes else insert r.host r routes
sync route_updated r routes = if r.host == "" then routes else insert r.host r routes
sync route_deleted r routes = delete r.host routes
sync (other name) r routes = routes

-- The send that does not block: a full buffer drops the event.
forward : RouteEvent → Option (List RouteEvent) → Option (List RouteEvent)
forward ev none = none
forward ev (some buffer) = some (if ltb (length buffer) 64 then buffer ++ ev ∷ [] else buffer)

-- `Start` begins, and the deferred function when it returns.
unfoldable pub start : HttpSource → HttpSource
start s = record s { event_c = some []; channel = suc s.channel }

unfoldable pub stop : HttpSource → HttpSource
stop s = record s { event_c = none; in_hand = none }

-- The loop of `Start`: it receives an event while it has none in hand, and sends it on.
take_from : Option RouteEvent → Option (List RouteEvent) → HttpSource → HttpSource
take_from none none s = s
take_from none (some []) s = s
take_from none (some (ev ∷ rest)) s = record s { event_c = some rest; in_hand = some ev }
take_from (some held) c s = s

unfoldable pub take_one : HttpSource → HttpSource
unfolding take_from
take_one s = take_from s.in_hand s.event_c s

pass_from : Option RouteEvent → HttpSource → HttpSource
pass_from none s = s
pass_from (some ev) s = record s { in_hand = none; forwarded = s.forwarded ++ ev ∷ [] }

unfoldable pub pass_on : HttpSource → HttpSource
unfolding pass_from
pass_on s = pass_from s.in_hand s

unfoldable pub list_routes : HttpSource → List RouteRequest
unfolding values
list_routes s = values s.routes

-- `ch := s.eventC`
read_channel : ℕ → Option (List RouteEvent) → Option ℕ
read_channel id none = none
read_channel id (some buffer) = some id

-- `handlePostEvent` up to `Unlock`, with the answer that it writes after the send.
unfoldable pub handle_post_event : Decoded RouteEvent → HttpSource → Answer × HttpSource
unfolding sync read_channel
handle_post_event (decoded ev) s = (
  event_answer accepted ev,
  record s {
    events = s.events ++ ev ∷ [];
    routes = sync ev.event_type ev.route s.routes;
    sending = (read_channel s.channel s.event_c, ev) ∷ s.sending;
  },
)
handle_post_event (malformed e) s = (problem bad_request e, s)

-- One of the handlers that are about to send, and the others.
pub pick {ℓ} : {A : Type ℓ} → ℕ → List A → Option (A × List A)
pick n [] = none
pick zero (x ∷ xs) = some (x, xs)
pick (suc n) (x ∷ xs) = Option.map (λ y. (y.0, x ∷ y.1)) (pick n xs)

-- The send to a channel that no `Start` reads any more is lost.
deliver : ℕ → Option ℕ → RouteEvent → Option (List RouteEvent) → Option (List RouteEvent)
unfolding forward
deliver current none ev c = c
deliver current (some id) ev c = if eqb id current then forward ev c else c

send_picked :
    Option ((Option ℕ × RouteEvent) × List (Option ℕ × RouteEvent)) → HttpSource → HttpSource
unfolding deliver
send_picked none s = s
send_picked (some ((ch, ev), rest)) s = record s {
  sending = rest;
  event_c = deliver s.channel ch ev s.event_c;
}

-- `handlePostEvent` after `Unlock`, by the handler of this number among those that have got there.
unfoldable pub send : ℕ → HttpSource → HttpSource
unfolding pick send_picked
send n s = send_picked (pick n s.sending) s

unfoldable pub handle_get_events : HttpSource → Answer × HttpSource
handle_get_events s = (events_answer s.events, s)

put_route : RouteRequest → HttpSource → Answer × HttpSource
unfolding insert
put_route route s =
    if route.host == ""
    then (problem bad_request "\"host\" is required", s)
    else (route_answer created route, record s { routes = insert route.host route s.routes })

unfoldable pub handle_post_route : Decoded RouteRequest → HttpSource → Answer × HttpSource
unfolding put_route
handle_post_route (decoded route) s = put_route route s
handle_post_route (malformed e) s = (problem bad_request e, s)

unfoldable pub handle_delete_route : String → HttpSource → Answer × HttpSource
unfolding has delete
handle_delete_route host s = if host == "" then (problem bad_request "host is required", s) else (
  (if has host s.routes then empty no_content else problem not_found "not found"),
  record s { routes = delete host s.routes },
)

unfoldable pub handle_get_routes : HttpSource → Answer × HttpSource
unfolding values
handle_get_routes s = (routes_answer (values s.routes), s)

-- The requests of the API, with what the decoder returned, the second steps of those that post an
-- event, and the steps of `Start`.
pub data Request : Type 0 where
  post_event : Decoded RouteEvent → Request
  get_events get_routes : Request
  post_route : Decoded RouteRequest → Request
  delete_route : String → Request
  sends : ℕ → Request
  starts stops takes passes : Request

-- `Handler`, and `Start` beside it.
unfoldable pub serve : Request → HttpSource → HttpSource
unfolding handle_post_event handle_get_events handle_post_route handle_delete_route
    handle_get_routes send start stop take_one pass_on
serve (post_event ev) s = (handle_post_event ev s).1
serve get_events s = (handle_get_events s).1
serve get_routes s = (handle_get_routes s).1
serve (post_route r) s = (handle_post_route r s).1
serve (delete_route host) s = (handle_delete_route host s).1
serve starts s = start s
serve stops s = stop s
serve takes s = take_one s
serve passes s = pass_on s
serve (sends n) s = send n s

unfoldable pub serve_all : List Request → HttpSource → HttpSource
unfolding serve
serve_all [] s = s
serve_all (r ∷ rest) s = serve_all rest (serve r s)

-- `DesiredStateProvider`, for a world that holds the source.
abbrev pub desired_state : DesiredStateProvider HttpSource
desired_state = record { name = "http-source"; list = λ s. (ok (list_routes s), s) }
