-- ===== src/Cmd/MongoMapper.antt =====
-- cmd/routes-provisioner/internal/source/mongo_mapper.go: from change events and documents of
-- MongoDB to events and requests. `url.Parse` and the clock are parameters.
pub mod Agreement
pub mod Unparsable
mod Examples
use dynamic_routes_provision.Base.{
  String, ℕ, ◌⧺◌, ◌==◌, Bool, false, ◌||◌, Option, none, some, List, [], ◌∷◌, if◌then◌else◌,
}
use dynamic_routes_provision.Core.Result.{Error, wrap, Result, ok, err, panic}
use dynamic_routes_provision.Core.Route.{
  EventType, route_created, route_updated, route_deleted, RouteRequest, RouteEvent, Backend,
}

-- A value of a document: a string, or another value by its text under `%v`; a missing key is
-- `absent`.
pub data Field : Type 0 where
  text : String → Field
  value : String → Field
  absent : Field

abbrev pub Document : Type 0
Document = String → Field

-- The keys of a change event that are read, after their type assertions.
pub record ChangeEvent : Type 0 where
  pub operation_type : Field
  pub document_key : Option Document
  pub full_document : Option Document

pub record MongoMapper : Type 0 where
  pub url_field : String
  pub path : String
  pub tls : Bool
  pub backends : List Backend

-- `fmt.Sprintf("%v", …)`
unfoldable pub shown : Field → String
shown (text s) = s
shown (value s) = s
shown absent = "<nil>"

-- `s, _ := ….(string)`
unfoldable pub string_of : Field → String
string_of (text s) = s
string_of (value s) = ""
string_of absent = ""

-- `hostname` is `url.Parse` with `Hostname` on what it returns.
module _ (hostname : String → Result String) (m : MongoMapper) where
  -- `MapDocument` leaves `CreatedAt` unset.
  document_request : Document → String → Result String → Result (Option RouteRequest)
  unfolding shown
  document_request doc raw_url (ok host) =
      if host == ""
      then ok none
      else ok (
          some (record {
            id = shown (doc "_id");
            host = host;
            path = m.path;
            backends = m.backends;
            tls = m.tls;
            metadata = ("source_url", raw_url) ∷ [];
            created_at = 0;
          }))
  document_request doc raw_url (err e) = err (wrap ("parse url " ⧺ raw_url) e)
  document_request doc raw_url panic = panic

  pub map_document : Document → Result (Option RouteRequest)
  unfolding document_request string_of
  map_document doc =
      let raw_url = string_of (doc m.url_field) in
      if raw_url == "" then ok none else document_request doc raw_url (hostname raw_url)

  pub event_type_of : String → EventType
  event_type_of op = if (op == "update") || (op == "replace") then route_updated else route_created

  deletion : Option Document → Option RouteEvent
  unfolding shown
  deletion none = none
  deletion (some key) = some (record {
    event_type = route_deleted;
    route = record {
      id = shown (key "_id");
      host = "";
      path = "";
      backends = [];
      tls = false;
      metadata = [];
      created_at = 0;
    };
    raw_data = [];
  })

  -- `MapEvent` reads the document once more, by a text of its own.
  document_event : ℕ → String → Document → String → Result String → Result (Option RouteEvent)
  unfolding event_type_of shown
  document_event now op full_doc raw_url (ok host) =
      if host == ""
      then ok none
      else ok (
          some (record {
            event_type = event_type_of op;
            route = record {
              id = shown (full_doc "_id");
              host = host;
              path = m.path;
              backends = m.backends;
              tls = m.tls;
              metadata = ("source_url", raw_url) ∷ [];
              created_at = now;
            };
            raw_data = [];
          }))
  document_event now op full_doc raw_url (err e) = err (wrap ("parse url " ⧺ raw_url) e)
  document_event now op full_doc raw_url panic = panic

  upsertion : ℕ → String → Option Document → Result (Option RouteEvent)
  unfolding document_event string_of
  upsertion now op none = ok none
  upsertion now op (some full_doc) =
      let raw_url = string_of (full_doc m.url_field) in
      if raw_url == "" then ok none else document_event now op full_doc raw_url (hostname raw_url)

  pub map_event : ℕ → ChangeEvent → Result (Option RouteEvent)
  unfolding deletion upsertion string_of
  map_event now change =
      let op = string_of change.operation_type in
      if op == "delete"
      then ok (deletion change.document_key)
      else upsertion now op change.full_document
