-- ===== src/Cmd/Wiring/Complete.antt =====
-- cmd/routes-provisioner/main.go: a configuration that was accepted, put together.
use dynamic_routes_provision.Base.{
  ◌≢◌, String, ◌≡◌, refl, ◌∙◌, inl, inr, ◌==◌, Bool, true, false, Option, [], ◌∷◌, if_rule,
}
use dynamic_routes_provision.Core.Result.{ok, panic, IsOk, Action, pure, lift, ◌>>=◌, wrapping}
use dynamic_routes_provision.Core.Result.Always.{
  Always, Panics, pure-Always, wrapping-Always, then-Always, else-Always, bind-Always, bind-Panics,
  first-Panics, then-Panics, else-Panics, call-Always,
}
use dynamic_routes_provision.Cmd.Config.{Config, validate}
use dynamic_routes_provision.Cmd.Config.Validation.{IsValid, OneOf, validate_iff}
use dynamic_routes_provision.Cmd.Wiring.Parts.{
  Env, Sources, Issuer, Store, Gateway, Elector, Program,
}
use dynamic_routes_provision.Cmd.Wiring.Issuers.{needs_kube}
use dynamic_routes_provision.Cmd.Wiring.Election.{
  elector, enabled_elector, host_name, identity_of, mongo_elector, kube_elector,
}
use dynamic_routes_provision.Cmd.Wiring.Program.{wire}
use dynamic_routes_provision.Cmd.Wiring.Ready.{
  IsSome, IssuerReady, StoreReady, GatewayReady, ElectorReady, Ready, Starts,
}
use dynamic_routes_provision.Cmd.Wiring.Components.{
  SourcesReady, is_name, other_name, sources-Ready, issuer-IsSome, issuer-Ready, clientset-eq,
  needs-election, when_enabled, store-Ready, gateway-Ready,
}

module _ {W D : Type 0} (e : Env W D) (cfg : Config) (st : Starts e cfg) where
  identity-Always : Always (λ (s : String). Unit) (identity_of e cfg.leader_election.identity)
  unfolding identity_of host_name
  identity-Always =
      if_rule (Always (λ (s : String). Unit)) (cfg.leader_election.identity == "") _ _
        (call-Always (host_name e) (λ w. tt)) (pure-Always W (λ (s : String). Unit) _ tt)

  -- A duration of the leader election.
  duration :
      (context text : String)
      → IsOk (e.parse_duration text)
      → Always {W = W} (λ (d : D). Unit) (wrapping context (lift (e.parse_duration text)))
  duration context text h =
      wrapping-Always (λ (d : D). Unit) context _
        (call-Always (lift (e.parse_duration text)) (λ w. h))

  database-Always :
      (b : Bool) (name : String)
      → b ≡ true
      → Always (λ (u : Unit {0}). Unit) (e.mongo_database b name)
  database-Always true name there =
      call-Always (e.mongo_database true name) (st.mongo_database name)
  database-Always false name there = cc

  enabled-Ready :
      (client mongo_client : Bool) (database : String)
      → client ≡ needs_kube cfg
      → cfg.leader_election.enabled ≡ true
      → OneOf cfg.leader_election.provider ("kube" ∷ "mongo" ∷ [])
      → (cfg.leader_election.provider ≡ "mongo" → mongo_client ≡ true)
      → Always
          (ElectorReady true)
          (enabled_elector e client mongo_client database cfg.leader_election)
  unfolding enabled_elector kube_elector mongo_elector
  enabled-Ready client mongo_client database c on one there =
      bind-Always (λ (s : String). Unit) (ElectorReady true) _ _ identity-Always
        λ identity u.
          bind-Always (λ (d : D). Unit) (ElectorReady true) _ _
            (duration "invalid leader_election.lease_duration" cfg.leader_election.lease_duration
              (st.lease_duration on))
            λ lease_duration u.
              bind-Always (λ (d : D). Unit) (ElectorReady true) _ _
                (duration "invalid leader_election.retry_interval"
                  cfg.leader_election.retry_interval (st.retry_interval on))
                λ retry_period u. elim one [
                  | inl p ↦ then-Always (ElectorReady true) _ _ _ (is_name _ _ p) (
                      bind-Always (λ (d : D). Unit) (ElectorReady true) _ _
                        (duration "invalid leader_election.renew_deadline"
                          cfg.leader_election.renew_deadline (st.renew_deadline on p))
                        λ renew_deadline u.
                          pure-Always W (ElectorReady true) _ (c ∙ needs-election e cfg st on p))
                  | inr rest ↦ elim rest [
                    | inl p ↦ else-Always (ElectorReady true) _ _ _ (other_name p "kube" refl) (
                        then-Always (ElectorReady true) _ _ _ (is_name _ _ p) (
                          bind-Always (λ (u : Unit {0}). Unit) (ElectorReady true) _ _
                            (database-Always mongo_client database (there p))
                            (λ u t. pure-Always W (ElectorReady true) _ tt)))
                    | inr p ↦ absurd p
                  ]
                ]

  ready :
      (s : Sources) (i : Option (Issuer D)) (client : Bool) (stored : Option (Store D))
      (p : Option Gateway) (interval : D)
      → SourcesReady cfg.datasource s
      → IssuerReady i
      → StoreReady cfg.certificate_store.enabled stored
      → GatewayReady p
      → Always
          (ElectorReady cfg.leader_election.enabled)
          (elector e client s.mongo_client cfg.datasource.database cfg.leader_election)
      → Always (Ready cfg) (
          elector e client s.mongo_client cfg.datasource.database cfg.leader_election >>= λ l.
          pure (record {
            desired_state = s.desired_state;
            trigger = s.trig;
            issuing = record { issuer = i; store = stored };
            gateway = p;
            reconcile_interval = interval;
            elector = l;
          }))
  ready s i client stored p interval hs hi ht hp hl =
      bind-Always (ElectorReady cfg.leader_election.enabled) (Ready cfg) _ _ hl
        λ l h. pure-Always W (Ready cfg) _ (hs.1, hs.0, hi, ht, hp, h)

  wire-Always :
      IsValid cfg
      → cfg.certificate.provider ≢ "acme-dns"
      → (cfg.leader_election.enabled ≡ true
          → cfg.leader_election.provider ≡ "mongo"
          → cfg.datasource.provider ≡ "mongodb")
      → Always (Ready cfg) (wire e cfg)
  unfolding wire elector
  wire-Always v other there =
      bind-Always (SourcesReady cfg.datasource) (Ready cfg) _ _ (sources-Ready e cfg st v.0) λ s hs.
        bind-Always IssuerReady (Ready cfg) _ _ (issuer-Ready e cfg st other v.2) λ i hi.
          bind-Always (λ b. b ≡ needs_kube cfg) (Ready cfg) _ _ (clientset-eq e cfg st)
            λ client hc.
              bind-Always (StoreReady cfg.certificate_store.enabled) (Ready cfg) _ _
                (store-Ready e cfg st client hc v.3)
                λ stored ht.
                  bind-Always GatewayReady (Ready cfg) _ _
                    (gateway-Ready e cfg st client stored hc v.1)
                    λ p hp.
                      bind-Always (λ (d : D). Unit) (Ready cfg) _ _
                        (duration "invalid reconcile interval" cfg.reconcile.interval st.interval)
                        λ d u. ready s i client stored p d hs hi ht hp (
                          when_enabled e cfg st ElectorReady cfg.leader_election.enabled _ refl
                            λ on.
                              enabled-Ready client s.mongo_client cfg.datasource.database hc on
                                (v.4 on) λ m. hs.2 ∙ is_name _ _ (there on m))

  -- For a configuration that was accepted and whose issuer is not acme-dns, where the calls outside
  -- succeed and the durations in use can be parsed, and where a lease in MongoDB comes with MongoDB as
  -- the datasource: the program is put together from what `Ready` asks for.
  pub wire-Ready :
      validate cfg ≡ ok tt
      → cfg.certificate.provider ≢ "acme-dns"
      → (cfg.leader_election.enabled ≡ true
          → cfg.leader_election.provider ≡ "mongo"
          → cfg.datasource.provider ≡ "mongodb")
      → (w : W) → (p : Program D) × ((wire e cfg w).0 ≡ ok p) × Ready cfg p
  unfolding Always
  wire-Ready valid other there w = wire-Always ((validate_iff cfg).0 valid) other there w

  database-Panics :
      ((name : String) (w : W) → (e.mongo_database false name w).0 ≡ panic)
      → (b : Bool) (name : String) → b ≡ false
      → Panics (e.mongo_database b name)
  unfolding Panics
  database-Panics nil_client true name absent = cc
  database-Panics nil_client false name absent = nil_client name

  enabled-Panics :
      ((name : String) (w : W) → (e.mongo_database false name w).0 ≡ panic)
      → (client mongo_client : Bool) (database : String) → mongo_client ≡ false
      → cfg.leader_election.enabled ≡ true
      → cfg.leader_election.provider ≡ "mongo"
      → Panics (enabled_elector e client mongo_client database cfg.leader_election)
  unfolding enabled_elector mongo_elector Panics
  enabled-Panics nil_client client mongo_client database absent on p =
      bind-Panics (λ (s : String). Unit) _ _ identity-Always
        λ identity u.
          bind-Panics (λ (d : D). Unit) _ _
            (duration "invalid leader_election.lease_duration" cfg.leader_election.lease_duration
              (st.lease_duration on))
            λ lease_duration u.
              bind-Panics (λ (d : D). Unit) _ _
                (duration "invalid leader_election.retry_interval"
                  cfg.leader_election.retry_interval (st.retry_interval on))
                λ retry_period u. else-Panics _ _ _ (other_name p "kube" refl) (
                  then-Panics _ _ _ (is_name _ _ p)
                    (first-Panics _ _ (database-Panics nil_client mongo_client database absent)))

  elector-Panics :
      ((name : String) (w : W) → (e.mongo_database false name w).0 ≡ panic)
      → (s : Sources) (client : Bool) (database : String)
        (f : Option (Elector D) → Action W (Program D))
      → s.mongo_client ≡ false
      → cfg.leader_election.enabled ≡ true
      → cfg.leader_election.provider ≡ "mongo"
      → Panics (elector e client s.mongo_client database cfg.leader_election >>= f)
  unfolding elector
  elector-Panics nil_client s client database f absent on p = first-Panics _ f (
      then-Panics cfg.leader_election.enabled _ _ on
        (enabled-Panics nil_client client s.mongo_client database absent on p))

  -- Where `Database` of a nil client panics: with a configuration that was accepted and has HTTP as
  -- the datasource and a lease in MongoDB, the program panics when it is put together, where the
  -- other calls outside succeed and the durations in use can be parsed.
  pub wire-no_mongo_client :
      ((name : String) (w : W) → (e.mongo_database false name w).0 ≡ panic)
      → validate cfg ≡ ok tt
      → cfg.datasource.provider ≡ "http"
      → cfg.leader_election.enabled ≡ true
      → cfg.leader_election.provider ≡ "mongo"
      → (w : W) → (wire e cfg w).0 ≡ panic
  unfolding wire Panics
  wire-no_mongo_client nil_client valid h on m =
      let v = (validate_iff cfg).0 valid in
      bind-Panics (SourcesReady cfg.datasource) _ _ (sources-Ready e cfg st v.0) λ s hs.
        bind-Panics IsSome _ _ (issuer-IsSome e cfg st v.2) λ i hi.
          bind-Panics (λ b. b ≡ needs_kube cfg) _ _ (clientset-eq e cfg st)
            λ client hc.
              bind-Panics (StoreReady cfg.certificate_store.enabled) _ _
                (store-Ready e cfg st client hc v.3)
                λ stored ht.
                  bind-Panics GatewayReady _ _ (gateway-Ready e cfg st client stored hc v.1) λ p hp.
                    bind-Panics (λ (d : D). Unit) _ _
                      (duration "invalid reconcile interval" cfg.reconcile.interval st.interval)
                      λ d u.
                        elector-Panics nil_client s client cfg.datasource.database _
                          (hs.2 ∙ other_name h "mongodb" refl) on m
