-- ===== src/Core/Route.antt =====
-- core/route.go: the domain model.
use dynamic_routes_provision.Base.{String, ℕ, Bool, List}
use dynamic_routes_provision.Core.Dict.{Dict}

-- A Go string type; `other` stands for each string that is not one of the constants.
pub data EventType : Type 0 where
  route_created : EventType
  route_updated : EventType
  route_deleted : EventType
  other : String → EventType

-- `Port` and `Weight` are Go ints that the program never computes with.
pub record Backend : Type 0 where
  pub service_name : String
  pub port : ℕ
  pub weight : ℕ

-- A `time.Time` is a number of nanoseconds; the zero time is 0.
pub record RouteRequest : Type 0 where
  pub id : String
  pub host : String
  pub path : String
  pub backends : List Backend
  pub tls : Bool
  pub metadata : Dict String
  pub created_at : ℕ

pub record RouteEvent : Type 0 where
  pub event_type : EventType
  pub route : RouteRequest
  pub raw_data : List ℕ

pub record Certificate : Type 0 where
  pub host : String
  pub cert_pem : List ℕ
  pub key_pem : List ℕ
  pub ca_cert_pem : List ℕ
  pub not_before : ℕ
  pub not_after : ℕ
  pub issuer_name : String

pub record ProvisionedRoute : Type 0 where
  pub route_id : String
  pub host : String
  pub gateway_id : String
  pub certificate_id : String
  pub status : String
  pub provider_name : String
