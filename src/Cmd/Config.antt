-- ===== src/Cmd/Config.antt =====
-- cmd/routes-provisioner/internal/config/config.go: the configuration, its check, and how it is
-- loaded. The library viper, which merges the defaults, the file and the environment, is a parameter.
pub mod Defaults
pub mod Validation
use dynamic_routes_provision.Base.{
  String, ℕ, suc, ◌⧺◌, ◌==◌, Bool, List, [], ◌∷◌, any, if◌then◌else◌,
}
use dynamic_routes_provision.Core.Dict.{Dict}
use dynamic_routes_provision.Core.Result.{
  errorf, Result, ok, err, panic, Action, pure, lift, ◌>>=◌, ◌>>◌, wrapping,
}
use dynamic_routes_provision.Core.Route.{Backend}
use dynamic_routes_provision.Cmd.Names.{decimal}

pub record LogConfig : Type 0 where
  pub format : String

-- Durations are texts that main.go parses.
pub record LeaderElectionConfig : Type 0 where
  pub enabled : Bool
  pub provider : String
  pub lease_name : String
  pub namespace : String
  pub lease_duration : String
  pub renew_deadline : String
  pub retry_interval : String
  pub identity : String

pub record CertificateStoreConfig : Type 0 where
  pub enabled : Bool
  pub provider : String
  pub namespace : String
  pub secret_prefix : String
  pub renew_before : String
  pub dir : String
  pub vault_address : String
  pub vault_token : String
  pub vault_mount : String
  pub vault_prefix : String

pub record ReconcileConfig : Type 0 where
  pub interval : String

-- `Backends` are records of the same fields as the backends of a route.
pub record MapperConfig : Type 0 where
  pub url_field : String
  pub path : String
  pub tls : Bool
  pub backends : List Backend

pub record CollectionConfig : Type 0 where
  pub collection : String
  pub mapper : MapperConfig

pub record DatasourceConfig : Type 0 where
  pub provider : String
  pub uri : String
  pub database : String
  pub collection : String
  pub collections : List CollectionConfig
  pub listen_addr : String
  pub mapper : MapperConfig

pub record CertificateConfig : Type 0 where
  pub provider : String
  pub email : String
  pub directory_url : String
  pub challenge_port : ℕ
  pub validity : String
  pub organization : String
  pub vault_address : String
  pub vault_token : String
  pub vault_mount : String
  pub vault_role : String
  pub vault_ttl : String

pub record ProvisionerConfig : Type 0 where
  pub provider : String
  pub endpoint : String
  pub username : String
  pub password : String
  pub insecure_skip_verify : Bool
  pub namespace : String
  pub max_routes_per_ingress : ℕ
  pub ingress_class : String
  pub annotations : Dict String

pub record Config : Type 0 where
  pub log : LogConfig
  pub datasource : DatasourceConfig
  pub certificate : CertificateConfig
  pub certificate_store : CertificateStoreConfig
  pub provisioner : ProvisionerConfig
  pub reconcile : ReconcileConfig
  pub leader_election : LeaderElectionConfig

-- `default_path`, unless the variable ROUTES_CONFIG_PATH is set.
pub config_path : String → String → String
config_path variable default_path = if variable == "" then default_path else variable

-- The list of collections, or the single one of older configurations.
collections_or : List CollectionConfig → CollectionConfig → List CollectionConfig
collections_or [] single = single ∷ []
collections_or (c ∷ cs) single = c ∷ cs

unfoldable pub mongo_collections : DatasourceConfig → List CollectionConfig
unfolding collections_or
mongo_collections d =
    collections_or d.collections (record { collection = d.collection; mapper = d.mapper })

-- `if err := a; err != nil { return err }; b`
abbrev then_check : Result (Unit {0}) → Result (Unit {0}) → Result (Unit {0})
then_check (ok a) r = r
then_check (err e) r = err e
then_check panic r = panic

check_collections : ℕ → List CollectionConfig → Result (Unit {0})
unfolding decimal
check_collections i [] = ok tt
check_collections i (c ∷ cs) =
    let rest = check_collections (suc i) cs in
    if c.collection == ""
    then err (errorf ("datasource.collections[" ⧺ decimal i ⧺ "].collection is required"))
    else rest

-- A case of a `switch` that lists several texts.
abbrev one_of : String → List String → Bool
one_of s names = any (λ n. s == n) names

validate_datasource : DatasourceConfig → Result (Unit {0})
unfolding mongo_collections check_collections
validate_datasource d =
    if d.provider == "mongodb"
    then (if d.uri == ""
        then err (errorf "datasource.uri is required (or set ROUTES_DATASOURCE_URI)")
        else if d.database == ""
        then err (errorf "datasource.database is required (or set ROUTES_DATASOURCE_DATABASE)")
        else check_collections 0 (mongo_collections d))
    else if d.provider == "http"
    then ok tt
    else err (
        errorf
          "datasource.provider must be 'mongodb' or 'http' (or set ROUTES_DATASOURCE_PROVIDER)")

validate_provisioner : ProvisionerConfig → Result (Unit {0})
validate_provisioner p =
    if p.provider == "netscaler"
    then (if p.endpoint == ""
        then err (errorf "provisioner.endpoint is required (or set ROUTES_PROVISIONER_ENDPOINT)")
        else ok tt)
    else if one_of p.provider ("ingress" ∷ "log" ∷ [])
    then ok tt
    else err (
        errorf
          "provisioner.provider must be 'netscaler', 'ingress', or 'log' (or set ROUTES_PROVISIONER_PROVIDER)")

validate_certificate : CertificateConfig → Result (Unit {0})
validate_certificate c =
    if one_of c.provider ("none" ∷ "acme-http" ∷ "acme-dns" ∷ "selfsigned" ∷ "vault" ∷ [])
    then ok tt
    else err (
        errorf
          "certificate.provider must be 'none', 'acme-http', 'acme-dns', 'selfsigned', or 'vault' (or set ROUTES_CERTIFICATE_PROVIDER)")

validate_store : CertificateStoreConfig → Result (Unit {0})
validate_store s =
    if s.enabled
    then (if one_of s.provider ("kube" ∷ "vault" ∷ "file" ∷ [])
        then ok tt
        else err (
            errorf
              "certificate_store.provider must be 'kube', 'vault', or 'file' (or set ROUTES_CERTIFICATE_STORE_PROVIDER)"))
    else ok tt

validate_election : LeaderElectionConfig → Result (Unit {0})
validate_election l =
    if l.enabled
    then (if one_of l.provider ("kube" ∷ "mongo" ∷ [])
        then ok tt
        else err (
            errorf
              "leader_election.provider must be 'kube' or 'mongo' (or set ROUTES_LEADER_ELECTION_PROVIDER)"))
    else ok tt

pub validate : Config → Result (Unit {0})
unfolding validate_datasource validate_provisioner validate_certificate validate_store
    validate_election
validate c = then_check (validate_datasource c.datasource) (
    then_check (validate_provisioner c.provisioner) (
      then_check (validate_certificate c.certificate)
        (then_check (validate_store c.certificate_store) (validate_election c.leader_election))))
