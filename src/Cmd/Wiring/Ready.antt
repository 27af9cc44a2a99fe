-- ===== src/Cmd/Wiring/Ready.antt =====
-- cmd/routes-provisioner/main.go: what a program needs to run, and what a configuration and its
-- surroundings need for the program to start.
use dynamic_routes_provision.Base.{String, ◌≡◌, ◌≢◌, Bool, true, false, Option, none, some}
use dynamic_routes_provision.Core.Result.{IsOk}
use dynamic_routes_provision.Cmd.Config.{Config}
use dynamic_routes_provision.Cmd.Wiring.Parts.{
  Env, Issuer, cert_none, acme_http, acme_dns, self_signed, vault, Store, kube_store, vault_store,
  file_store, Gateway, netscaler, ingress, log_gateway, Elector, kube_lease, mongo_lease, Program,
}

abbrev pub IsSome : {A : Type 0} → Option A → Type 0
IsSome none = ⊥
IsSome (some a) = Unit

-- An issuer, and with a DNS provider if it needs one.
abbrev pub IssuerReady : {D : Type 0} → Option (Issuer D) → Type 0
IssuerReady none = ⊥
IssuerReady (some cert_none) = Unit
IssuerReady (some (acme_http port email directory_url)) = Unit
IssuerReady (some (acme_dns dns_provider email directory_url)) = dns_provider ≡ true
IssuerReady (some (self_signed validity organization)) = Unit
IssuerReady (some (vault address token mount role ttl)) = Unit

-- A store just when it is enabled, and with a clientset if it needs one.
abbrev pub StoreReady : {D : Type 0} → Bool → Option (Store D) → Type 0
StoreReady true none = ⊥
StoreReady true (some (kube_store clientset namespace secret_prefix renew_before)) =
    clientset ≡ true
StoreReady true (some (vault_store address token mount prefix renew_before)) = Unit
StoreReady true (some (file_store dir renew_before)) = Unit
StoreReady false st = st ≡ none

abbrev pub GatewayReady : Option Gateway → Type 0
GatewayReady none = ⊥
GatewayReady (some (netscaler endpoint username password insecure)) = endpoint ≢ ""
GatewayReady (some (ingress naming ingress_class annotations namespace max clientset)) =
    clientset ≡ true
GatewayReady (some log_gateway) = Unit

-- An elector just when it is enabled, and with a clientset if it needs one.
abbrev pub ElectorReady : {D : Type 0} → Bool → Option (Elector D) → Type 0
ElectorReady true none = ⊥
ElectorReady true
      (some
        (kube_lease clientset namespace lease_name identity lease_duration renew_deadline retry)) =
    clientset ≡ true
ElectorReady true
      (some (mongo_lease database collection lease_name identity lease_duration retry)) =
    Unit
ElectorReady false l = l ≡ none

-- Nothing that the program calls is nil.
abbrev pub Ready : {D : Type 0} → Config → Program D → Type 0
Ready cfg p =
    IsSome p.desired_state
    × IsSome p.trigger
    × IssuerReady p.issuing.issuer
    × StoreReady cfg.certificate_store.enabled p.issuing.store
    × GatewayReady p.gateway
    × ElectorReady cfg.leader_election.enabled p.elector

-- The calls outside the program succeed, and the durations that are used can be parsed.
pub record Starts {W D : Type 0} (e : Env W D) (cfg : Config) : Type 0 where
  pub connect_mongo : (uri : String) (w : W) → IsOk (e.connect_mongo uri w).0
  pub mongo_database : (name : String) (w : W) → IsOk (e.mongo_database true name w).0
  pub generate_account_key : (w : W) → IsOk (e.generate_account_key w).0
  pub new_vault_client : (address : String) (w : W) → IsOk (e.new_vault_client address w).0
  pub in_cluster_config : (w : W) → IsOk (e.in_cluster_config w).0
  pub new_clientset : (w : W) → IsOk (e.new_clientset w).0
  pub validity : cfg.certificate.validity ≢ "" → IsOk (e.parse_duration cfg.certificate.validity)
  pub renew_before :
      cfg.certificate_store.enabled ≡ true
      → IsOk (e.parse_duration cfg.certificate_store.renew_before)
  pub interval : IsOk (e.parse_duration cfg.reconcile.interval)
  pub lease_duration :
      cfg.leader_election.enabled ≡ true
      → IsOk (e.parse_duration cfg.leader_election.lease_duration)
  pub renew_deadline :
      cfg.leader_election.enabled ≡ true
      → cfg.leader_election.provider ≡ "kube"
      → IsOk (e.parse_duration cfg.leader_election.renew_deadline)
  pub retry_interval :
      cfg.leader_election.enabled ≡ true
      → IsOk (e.parse_duration cfg.leader_election.retry_interval)
