-- ===== src/Cmd/Wiring/Examples.antt =====
-- The theorems on configurations, at two of them: one with MongoDB, an Ingress and a lease in
-- Kubernetes, and one with HTTP and a lease in MongoDB.
use dynamic_routes_provision.Base.{
  String, ◌≡◌, refl, ap, inl, inr, ◌↔◌, true, false, if◌then◌else◌, [],
}
use dynamic_routes_provision.Core.Result.{Result, ok, panic, pure, crash, continue}
use dynamic_routes_provision.Cmd.Config.{
  Config, DatasourceConfig, LeaderElectionConfig, MapperConfig, validate, mongo_collections,
}
use dynamic_routes_provision.Cmd.Config.Validation.{IsValid, validate_iff}
use dynamic_routes_provision.Cmd.Wiring.Parts.{Env, Program}
use dynamic_routes_provision.Cmd.Wiring.Program.{wire, start}
use dynamic_routes_provision.Cmd.Wiring.Ready.{Ready, Starts}
use dynamic_routes_provision.Cmd.Wiring.Complete.{wire-no_mongo_client}
use dynamic_routes_provision.Cmd.Wiring.Start.{start-Ready}
use dynamic_routes_provision.Cmd.Config.Defaults.{Viper, load, checked, set_defaults}

-- Surroundings in which every call succeeds; a duration is its text.
abbrev surroundings : Env (Unit {0}) String
surroundings = record {
  parse_duration = ok;
  connect_mongo = λ uri. pure tt;
  mongo_database = λ there name. if there then pure tt else crash;
  generate_account_key = pure tt;
  new_vault_client = λ address. pure tt;
  in_cluster_config = pure tt;
  new_clientset = pure tt;
  hostname = λ w. ("node", w);
}

abbrev mapper : MapperConfig
mapper = record { url_field = "url"; path = "/"; tls = true; backends = [] }

abbrev datasource : String → DatasourceConfig
datasource provider = record {
  provider = provider;
  uri = "mongodb://db";
  database = "app";
  collection = "routes";
  collections = [];
  listen_addr = ":8081";
  mapper = mapper;
}

abbrev election : String → LeaderElectionConfig
election provider = record {
  enabled = true;
  provider = provider;
  lease_name = "leader";
  namespace = "default";
  lease_duration = "15s";
  renew_deadline = "10s";
  retry_interval = "2s";
  identity = "";
}

abbrev config : String → String → String → Config
config source gateway lease = record {
  log = record { format = "json" };
  datasource = datasource source;
  certificate = record {
    provider = "acme-http";
    email = "";
    directory_url = "";
    challenge_port = 80;
    validity = "";
    organization = "";
    vault_address = "";
    vault_token = "";
    vault_mount = "";
    vault_role = "";
    vault_ttl = "";
  };
  certificate_store = record {
    enabled = true;
    provider = "kube";
    namespace = "default";
    secret_prefix = "route-tls";
    renew_before = "720h";
    dir = ".certs";
    vault_address = "";
    vault_token = "";
    vault_mount = "";
    vault_prefix = "";
  };
  provisioner = record {
    provider = gateway;
    endpoint = "";
    username = "";
    password = "";
    insecure_skip_verify = false;
    namespace = "default";
    max_routes_per_ingress = 50;
    ingress_class = "";
    annotations = [];
  };
  reconcile = record { interval = "5m" };
  leader_election = election lease;
}

starts : (source gateway lease : String) → Starts surroundings (config source gateway lease)
starts source gateway lease = record {
  connect_mongo = λ uri w. tt;
  mongo_database = λ name w. tt;
  generate_account_key = λ w. tt;
  new_vault_client = λ address w. tt;
  in_cluster_config = λ w. tt;
  new_clientset = λ w. tt;
  validity = λ h. tt;
  renew_before = λ h. tt;
  interval = tt;
  lease_duration = λ h. tt;
  renew_deadline = λ h k. tt;
  retry_interval = λ h. tt;
}

validate_iff_example :
    (validate (config "mongodb" "ingress" "kube") ≡ ok tt)
    ↔ IsValid (config "mongodb" "ingress" "kube")
validate_iff_example = validate_iff (config "mongodb" "ingress" "kube")

kube_valid : validate (config "mongodb" "ingress" "kube") ≡ ok tt
unfolding mongo_collections
kube_valid = (validate_iff (config "mongodb" "ingress" "kube")).1 (
  inl (refl, (λ h. cc), (λ h. cc), ((λ h. cc), tt)),
  inr (inl refl),
  inr (inl refl),
  (λ h. inl refl),
  (λ h. inl refl),
)

mongo_lease_valid : validate (config "http" "log" "mongo") ≡ ok tt
mongo_lease_valid =
    (validate_iff (config "http" "log" "mongo")).1
      (inr refl, inr (inr (inl refl)), inr (inl refl), (λ h. inl refl), (λ h. inr (inl refl)))

-- A viper that knows the first configuration.
abbrev viper : Viper (Unit {0})
viper = record {
  set_default = λ key value. pure tt;
  set_config_file = λ path. pure tt;
  read_in_config = pure tt;
  set_env_prefix = λ prefix. pure tt;
  set_env_key_replacer = λ old new. pure tt;
  automatic_env = pure tt;
  unmarshal = pure (config "mongodb" "ingress" "kube");
}

loaded : load viper "config.yaml" tt ≡ (ok (config "mongodb" "ingress" "kube"), tt)
unfolding load checked set_defaults
loaded =
    ap
      (λ (r : Result (Unit {0})).
        continue r (λ u. pure {W = Unit {0}} (config "mongodb" "ingress" "kube")) tt)
      kube_valid

start-Ready_example :
    (p : Program String) × ((start viper surroundings "config.yaml" tt).0 ≡ ok p)
    × Ready (config "mongodb" "ingress" "kube") p
start-Ready_example =
    start-Ready viper surroundings "config.yaml" (config "mongodb" "ingress" "kube") tt tt loaded
      (starts "mongodb" "ingress" "kube") (λ e. cc) (λ on m. refl)

wire-no_mongo_client_example : (wire surroundings (config "http" "log" "mongo") tt).0 ≡ panic
wire-no_mongo_client_example =
    wire-no_mongo_client surroundings (config "http" "log" "mongo") (starts "http" "log" "mongo")
      (λ name w. refl) mongo_lease_valid refl refl refl tt
