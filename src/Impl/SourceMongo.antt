-- ===== src/Impl/SourceMongo.antt =====
-- impl/source-mongo/lister.go and trigger.go: routes and events from a collection of MongoDB. The
-- collection is a parameter: a cursor is the documents that it yields, as `Decode` returns each, and
-- the error that it ends with; a change stream likewise.
pub mod Listing
pub mod Stream
mod Examples
use dynamic_routes_provision.Base.{
  String, Bool, true, false, Option, none, some, List, [], ◌∷◌, ◌++◌,
}
use dynamic_routes_provision.Core.Result.{
  Error, errorf, wrap, Result, ok, err, panic, Action, pure, raise, lift, ◌>>=◌, ◌>>◌, wrapping,
  wrapped,
}
use dynamic_routes_provision.Core.Route.{RouteRequest, RouteEvent}
use dynamic_routes_provision.Core.Interfaces.{DesiredStateProvider}

-- What the developer provides; none skips an event or a document. The pipeline is read by the
-- database alone.
pub record DocumentMapper (Doc Change : Type 0) : Type 0 where
  pub map_event : Change → Result (Option RouteEvent)
  pub map_document : Doc → Result (Option RouteRequest)

pub record Yield (A : Type 0) : Type 0 where
  pub items : List (Result A)
  pub end_error : Option Error

-- What happens to a mapped event: the receiver takes it, or the context is cancelled first.
pub data Select : Type 0 where
  taken done : Select

pub record Collection (W Doc Change : Type 0) : Type 0 where
  pub find : Action W (Yield Doc)
  pub watch : Action W (Yield (Change × Select))

-- `if err := cursor.Err(); err != nil`
ended : String → Option Error → Result (Unit {0})
ended context none = ok tt
ended context (some e) = err (wrap context e)

-- What `Start` has sent, and what it returns.
pub record Sent : Type 0 where
  pub events : List RouteEvent
  pub outcome : Result (Unit {0})

add_route : Option RouteRequest → List RouteRequest → List RouteRequest
add_route none routes = routes
add_route (some route) routes = route ∷ routes

stopped : Result (Unit {0}) → Sent
stopped r = record { events = []; outcome = r }

deliver : Option RouteEvent → Select → Sent → Sent
unfolding stopped
deliver none s rest = rest
deliver (some e) taken rest = record rest { events = e ∷ rest.events }
deliver (some e) done rest = stopped (err (errorf "context canceled"))

on_event : Result (Option RouteEvent) → Select → Sent → Sent
unfolding deliver stopped
on_event (ok event) s rest = deliver event s rest
on_event (err e) s rest = stopped (err (wrap "map change event" e))
on_event panic s rest = stopped panic

module _ {Doc Change : Type 0} (mapper : DocumentMapper Doc Change) where
  on_change : Result (Change × Select) → Sent → Sent
  unfolding on_event stopped
  on_change (ok (change, s)) rest = on_event (mapper.map_event change) s rest
  on_change (err e) rest = stopped (err (wrap "decode change event" e))
  on_change panic rest = stopped panic

  -- The loop over the change stream.
  pub forward : List (Result (Change × Select)) → Option Error → Sent
  unfolding on_change stopped ended
  forward [] end = stopped (ended "change stream error" end)
  forward (item ∷ items) end = let rest = forward items end in on_change item rest

module _ {W Doc Change : Type 0} (mapper : DocumentMapper Doc Change) where
  -- The loop over the documents of a cursor.
  map_all : List (Result Doc) → Action W (List RouteRequest)
  unfolding add_route
  map_all [] = pure []
  map_all (item ∷ items) = do
    doc ← wrapping "decode document" (lift item)
    route ← wrapping "map document" (lift (mapper.map_document doc))
    routes ← map_all items
    pure (add_route route routes)

  unfoldable pub list_documents : Collection W Doc Change → Action W (List RouteRequest)
  unfolding map_all ended
  list_documents c = do
    cursor ← wrapping "find documents" c.find
    routes ← map_all cursor.items
    lift (ended "cursor error" cursor.end_error)
    pure routes

  abbrev pub mongo_desired_state : Collection W Doc Change → DesiredStateProvider W
  mongo_desired_state c = record { name = "mongo-desired-state"; list = list_documents c }

  pub start : Collection W Doc Change → Action W Sent
  unfolding forward
  start c = do
    stream ← wrapping "open change stream" c.watch
    pure (forward mapper stream.items stream.end_error)
