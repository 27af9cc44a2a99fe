-- ===== src/Cmd/Wiring/Parts.antt =====
-- cmd/routes-provisioner/main.go: the components by the names of their constructors, with the options
-- that they are given and, where main.go gives none, the package's own default. An interface or a
-- pointer that is nil is `none` or `false`.
use dynamic_routes_provision.Base.{String, ℕ, Bool, Option, List, ◌==◌, if◌then◌else◌}
use dynamic_routes_provision.Core.Dict.{Dict}
use dynamic_routes_provision.Core.Result.{Result, Action}
use dynamic_routes_provision.Cmd.MongoMapper.{MongoMapper}

-- What main.go calls outside the program: `time.ParseDuration`, `mongo.Connect`, `Database` of a
-- client that is there or nil, the keys of ACME accounts, the clients of Vault and Kubernetes, and
-- the name of the host, empty when it is unknown. `D` is `time.Duration`.
pub record Env (W D : Type 0) : Type 0 where
  pub parse_duration : String → Result D
  pub connect_mongo : String → Action W (Unit {0})
  pub mongo_database : Bool → String → Action W (Unit {0})
  pub generate_account_key : Action W (Unit {0})
  pub new_vault_client : String → Action W (Unit {0})
  pub in_cluster_config : Action W (Unit {0})
  pub new_clientset : Action W (Unit {0})
  pub hostname : W → String × W

-- A collection and the mapper of its documents.
pub record Collection : Type 0 where
  pub database : String
  pub collection : String
  pub mapper : MongoMapper

-- A trigger or a source of truth.
pub data Source : Type 0 where
  mongo : Collection → Source
  composite : List Collection → Source
  http : Source

pub record Sources : Type 0 where
  pub trig : Option Source
  pub desired_state : Option Source
  pub mongo_client : Bool

-- `dns_provider`: the interface that `certacmedns.New` is given is not nil.
pub data Issuer (D : Type 0) : Type 0 where
  cert_none : Issuer D
  acme_http : (port : ℕ) (email directory_url : String) → Issuer D
  acme_dns : (dns_provider : Bool) (email directory_url : String) → Issuer D
  self_signed : (validity : Option D) (organization : String) → Issuer D
  vault : (address token mount role ttl : String) → Issuer D

pub data Store (D : Type 0) : Type 0 where
  kube_store : (clientset : Bool) (namespace secret_prefix : String) (renew_before : D) → Store D
  vault_store : (address token mount prefix : String) (renew_before : D) → Store D
  file_store : (dir : String) (renew_before : D) → Store D

-- The issuer, and the store that caches its certificates when one is enabled.
pub record Issuing (D : Type 0) : Type 0 where
  pub issuer : Option (Issuer D)
  pub store : Option (Store D)

-- How the Ingress mapper names TLS secrets.
pub data SecretNaming : Type 0 where
  default_secret_name : SecretNaming
  store_secret_name : (secret_prefix : String) → SecretNaming

pub data Gateway : Type 0 where
  netscaler : (endpoint username password : String) (insecure_skip_verify : Bool) → Gateway
  ingress :
      (naming : SecretNaming) (ingress_class : String) (annotations : Dict String)
      (namespace : String) (max_routes_per_ingress : ℕ) (clientset : Bool)
      → Gateway
  log_gateway : Gateway

pub data Elector (D : Type 0) : Type 0 where
  kube_lease :
      (clientset : Bool) (namespace lease_name identity : String)
      (lease_duration renew_deadline retry_period : D)
      → Elector D
  mongo_lease :
      (database collection lease_name identity : String) (lease_duration retry_interval : D)
      → Elector D

-- What `orchestrator.New` is given.
pub record Program (D : Type 0) : Type 0 where
  pub desired_state : Option Source
  pub trigger : Option Source
  pub issuing : Issuing D
  pub gateway : Option Gateway
  pub reconcile_interval : D
  pub elector : Option (Elector D)

-- An option that is given only when its value is not empty, over a default.
abbrev pub or_default : String → String → String
or_default value default = if value == "" then default else value
