-- ===== src/Cmd/Config/Defaults.antt =====
-- cmd/routes-provisioner/internal/config/config.go: the defaults, and the loading of a configuration.
use dynamic_routes_provision.Base.{String, ℕ, Bool, true, false, List, [], ◌∷◌}
use dynamic_routes_provision.Core.Result.{Action, pure, lift, ◌>>=◌, ◌>>◌, wrapping}
use dynamic_routes_provision.Cmd.Config.{Config, validate}

-- The value of a default.
pub data Setting : Type 0 where
  text : String → Setting
  flag : Bool → Setting
  number : ℕ → Setting

-- The instance of viper, with `::` between the parts of a key.
pub record Viper (W : Type 0) : Type 0 where
  pub set_default : String → Setting → Action W (Unit {0})
  pub set_config_file : String → Action W (Unit {0})
  pub read_in_config : Action W (Unit {0})
  pub set_env_prefix : String → Action W (Unit {0})
  pub set_env_key_replacer : String → String → Action W (Unit {0})
  pub automatic_env : Action W (Unit {0})
  pub unmarshal : Action W Config

abbrev pub defaults : List (String × Setting)
defaults =
    ("log::format", text "json")
    ∷ ("datasource::provider", text "mongodb")
    ∷ ("datasource::collection", text "routes")
    ∷ ("datasource::listen_addr", text ":8081")
    ∷ ("datasource::mapper::url_field", text "url")
    ∷ ("datasource::mapper::path", text "/")
    ∷ ("datasource::mapper::tls", flag true)
    ∷ ("certificate::provider", text "acme-http")
    ∷ ("certificate::directory_url", text "https://acme-v02.api.letsencrypt.org/directory")
    ∷ ("certificate::challenge_port", number 80)
    ∷ ("certificate::validity", text "8760h")
    ∷ ("certificate::organization", text "Self-Signed")
    ∷ ("certificate::vault_mount", text "pki")
    ∷ ("certificate::vault_ttl", text "720h")
    ∷ ("certificate_store::enabled", flag false)
    ∷ ("certificate_store::provider", text "kube")
    ∷ ("certificate_store::namespace", text "default")
    ∷ ("certificate_store::secret_prefix", text "route-tls")
    ∷ ("certificate_store::renew_before", text "720h")
    ∷ ("certificate_store::dir", text ".certs")
    ∷ ("certificate_store::vault_mount", text "secret")
    ∷ ("certificate_store::vault_prefix", text "route-tls")
    ∷ ("provisioner::provider", text "netscaler")
    ∷ ("provisioner::namespace", text "default")
    ∷ ("provisioner::max_routes_per_ingress", number 50)
    ∷ ("reconcile::interval", text "5m")
    ∷ ("leader_election::enabled", flag false)
    ∷ ("leader_election::provider", text "kube")
    ∷ ("leader_election::lease_name", text "routes-provisioner-leader")
    ∷ ("leader_election::namespace", text "default")
    ∷ ("leader_election::lease_duration", text "15s")
    ∷ ("leader_election::renew_deadline", text "10s")
    ∷ ("leader_election::retry_interval", text "2s")
    ∷ []

module _ {W : Type 0} (v : Viper W) where
  unfoldable pub set_defaults : List (String × Setting) → Action W (Unit {0})
  set_defaults [] = pure tt
  set_defaults ((key, value) ∷ rest) = v.set_default key value >> set_defaults rest

  unfoldable pub checked : Config → Action W Config
  unfolding validate
  checked cfg = lift (validate cfg) >> pure cfg

  unfoldable pub load : String → Action W Config
  unfolding set_defaults checked
  load path = do
    set_defaults defaults
    v.set_config_file path
    wrapping "read config file" v.read_in_config
    v.set_env_prefix "ROUTES"
    v.set_env_key_replacer "::" "_"
    v.automatic_env
    cfg ← wrapping "unmarshal config" v.unmarshal
    checked cfg
