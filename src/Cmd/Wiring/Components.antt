-- ===== src/Cmd/Wiring/Components.antt =====
-- cmd/routes-provisioner/main.go: each component of a configuration that was accepted.
use dynamic_routes_provision.Base.{
  ◌≢◌, ℕ, String, ◌≡◌, refl, sym, ap, ◌∙◌, arith, inl, inr, ◌==◌, Bool, true, false, Option, none,
  some, [], ◌∷◌, if◌then◌else◌, Bool-cases, List,
}
use dynamic_routes_provision.Core.Result.{IsOk, Action, pure, lift, ◌>>◌, wrapping}
use dynamic_routes_provision.Core.Result.Always.{
  Always, pure-Always, wrapping-Always, then-Always, else-Always, bind-Always, call-Always,
}
use dynamic_routes_provision.Cmd.Config.{
  Config, DatasourceConfig, CollectionConfig, mongo_collections,
}
use dynamic_routes_provision.Cmd.Config.Validation.{
  IsSource, IsProvisioner, OneOf, eq-true, eq-false,
}
use dynamic_routes_provision.Cmd.Wiring.Parts.{
  Issuer, cert_none, acme_http, acme_dns, self_signed, vault, Env, Sources, Store, Collection,
}
use dynamic_routes_provision.Cmd.Wiring.Sources.{sources, mongo_sources, open_collections}
use dynamic_routes_provision.Cmd.Wiring.Issuers.{
  issuer, acme_http_issuer, acme_dns_issuer, self_signed_issuer, vault_issuer, clientset,
  needs_kube, store, enabled_store, store_of, vault_store_of,
}
use dynamic_routes_provision.Cmd.Wiring.Gateways.{gateway, ingress_gateway}
use dynamic_routes_provision.Cmd.Wiring.Ready.{
  IssuerReady, IsSome, StoreReady, GatewayReady, Starts,
}

-- The trigger and the desired state are there; MongoDB's client is, just when it is the datasource.
abbrev pub SourcesReady : DatasourceConfig → Sources → Type 0
SourcesReady d s =
    IsSome s.trig × IsSome s.desired_state × (s.mongo_client ≡ (d.provider == "mongodb"))

pub is_name : (s n : String) → s ≡ n → (s == n) ≡ true
is_name s n e = (eq-true s n).1 e

-- What equals one name does not equal another.
pub other_name : {s n : String} → s ≡ n → (m : String) → (n == m) ≡ false → (s == m) ≡ false
other_name e m h = ap (λ (t : String). t == m) e ∙ h

module _ {W D : Type 0} (e : Env W D) (cfg : Config) (st : Starts e cfg) where
  open_collections-Always :
      (d : DatasourceConfig) (cs : List CollectionConfig)
      → Always (λ (cols : List Collection). Unit) (open_collections e d cs)
  unfolding open_collections
  open_collections-Always d [] = pure-Always W (λ (cols : List Collection). Unit) [] tt
  open_collections-Always d (c ∷ cs) =
      bind-Always (λ (u : Unit {0}). Unit) (λ (cols : List Collection). Unit) _ _
        (call-Always (e.mongo_database true d.database) (st.mongo_database d.database))
        λ u h.
          bind-Always (λ (cols : List Collection). Unit) (λ (cols : List Collection). Unit) _ _
            (open_collections-Always d cs)
            λ cols t. pure-Always W (λ (cols : List Collection). Unit) _ tt

  pub sources-Ready :
      IsSource cfg.datasource → Always (SourcesReady cfg.datasource) (sources e cfg.datasource)
  unfolding sources mongo_sources
  sources-Ready (inl mongo) =
      then-Always (SourcesReady cfg.datasource) _ _ _ (is_name _ _ mongo.0) (
        bind-Always (λ (u : Unit {0}). Unit) (SourcesReady cfg.datasource) _ _
          (wrapping-Always (λ (u : Unit {0}). Unit) "failed to connect to mongodb" _
            (call-Always (e.connect_mongo cfg.datasource.uri)
              (st.connect_mongo cfg.datasource.uri)))
          (λ u h.
            bind-Always (λ (cols : List Collection). Unit) (SourcesReady cfg.datasource) _ _
              (open_collections-Always cfg.datasource (mongo_collections cfg.datasource))
              (λ cols t.
                pure-Always W (SourcesReady cfg.datasource) _ (tt, tt, sym (is_name _ _ mongo.0)))))
  sources-Ready (inr h) =
      let other = other_name h "mongodb" refl in
      else-Always (SourcesReady cfg.datasource) _ _ _ other (
        then-Always (SourcesReady cfg.datasource) _ _ _ (is_name _ _ h)
          (pure-Always W (SourcesReady cfg.datasource) _ (tt, tt, sym other)))

  -- A constructor that makes one call outside.
  made :
      {A B : Type 0} (Q : Option B → Type 0) (context inner : String) (m : Action W A) (b : B)
      → ((w : W) → IsOk (m w).0)
      → Q (some b)
      → Always Q (wrapping context (wrapping inner m) >> pure (some b))
  made Q context inner m b h good =
      bind-Always (λ (a : _). Unit) Q _ _
        (wrapping-Always (λ (a : _). Unit) context _
          (wrapping-Always (λ (a : _). Unit) inner _ (call-Always m h)))
        (λ a u. pure-Always W Q (some b) good)

  -- What holds of each issuer that needs no DNS provider, and, for the provider acme-dns, of one
  -- without it, holds of the issuer that is made.
  module _ (Q : Option (Issuer D) → Type 0) (none_good : Q (some cert_none))
      (http_good : (port : ℕ) (email url : String) → Q (some (acme_http port email url)))
      (dns_good : cfg.certificate.provider ≡ "acme-dns"
        → (email url : String) → Q (some (acme_dns false email url)))
      (self_good : (validity : Option D) (organization : String)
        → Q (some (self_signed validity organization)))
      (vault_good : (address token mount role ttl : String)
        → Q (some (vault address token mount role ttl))) where
    self_signed-Always : Always Q (self_signed_issuer e cfg.certificate)
    unfolding self_signed_issuer
    self_signed-Always = elim (Bool-cases (cfg.certificate.validity == "")) [
      | inl empty ↦ then-Always Q _ _ _ empty (pure-Always W Q _ (self_good _ _))
      | inr given ↦ else-Always Q _ _ _ given (
          bind-Always (λ (d : D). Unit) Q _ _
            (wrapping-Always (λ (d : D). Unit) "invalid certificate.validity" _
              (call-Always (lift (e.parse_duration cfg.certificate.validity))
                (λ w. st.validity ((eq-false cfg.certificate.validity "").0 given))))
            (λ d u. pure-Always W Q _ (self_good _ _)))
    ]

    pub issuer-Always :
        OneOf cfg.certificate.provider
          ("none" ∷ "acme-http" ∷ "acme-dns" ∷ "selfsigned" ∷ "vault" ∷ [])
        → Always Q (issuer e cfg.certificate)
    unfolding issuer acme_http_issuer acme_dns_issuer vault_issuer
    issuer-Always (inl p) = then-Always Q _ _ _ (is_name _ _ p) (pure-Always W Q _ none_good)
    issuer-Always (inr (inl p)) = else-Always Q _ _ _ (other_name p "none" refl) (
        then-Always Q _ _ _ (is_name _ _ p) (
          made Q "failed to create acme issuer" "generate account key" e.generate_account_key _
            st.generate_account_key (http_good _ _ _)))
    issuer-Always (inr (inr (inl p))) = else-Always Q _ _ _ (other_name p "none" refl) (
        else-Always Q _ _ _ (other_name p "acme-http" refl) (
          then-Always Q _ _ _ (is_name _ _ p) (
            made Q "failed to create acme-dns issuer" "generate account key" e.generate_account_key
              _ st.generate_account_key (dns_good p _ _))))
    issuer-Always (inr (inr (inr (inl p)))) = else-Always Q _ _ _ (other_name p "none" refl) (
        else-Always Q _ _ _ (other_name p "acme-http" refl) (
          else-Always Q _ _ _ (other_name p "acme-dns" refl)
            (then-Always Q _ _ _ (is_name _ _ p) self_signed-Always)))
    issuer-Always (inr (inr (inr (inr (inl p))))) = else-Always Q _ _ _ (other_name p "none" refl) (
        else-Always Q _ _ _ (other_name p "acme-http" refl) (
          else-Always Q _ _ _ (other_name p "acme-dns" refl) (
            else-Always Q _ _ _ (other_name p "selfsigned" refl) (
              then-Always Q _ _ _ (is_name _ _ p) (
                made Q "failed to create vault issuer" "create vault client" (e.new_vault_client _)
                  _ (st.new_vault_client _) (vault_good _ _ _ _ _))))))
    issuer-Always (inr (inr (inr (inr (inr p))))) = absurd p

  pub issuer-IsSome :
      OneOf cfg.certificate.provider
        ("none" ∷ "acme-http" ∷ "acme-dns" ∷ "selfsigned" ∷ "vault" ∷ [])
      → Always IsSome (issuer e cfg.certificate)
  issuer-IsSome =
      issuer-Always IsSome tt (λ port email url. tt) (λ p email url. tt)
        (λ validity organization. tt) (λ address token mount role ttl. tt)

  pub issuer-Ready :
      cfg.certificate.provider ≢ "acme-dns"
      → OneOf cfg.certificate.provider
          ("none" ∷ "acme-http" ∷ "acme-dns" ∷ "selfsigned" ∷ "vault" ∷ [])
      → Always IssuerReady (issuer e cfg.certificate)
  issuer-Ready other =
      issuer-Always IssuerReady tt (λ port email url. tt) (λ p email url. absurd (other p))
        (λ validity organization. tt) (λ address token mount role ttl. tt)

  pub clientset-eq : Always (λ b. b ≡ needs_kube cfg) (clientset e cfg)
  unfolding clientset
  clientset-eq = elim (Bool-cases (needs_kube cfg)) [
    | inl needed ↦
        then-Always (λ b. b ≡ needs_kube cfg) _ _ _ needed
          (bind-Always (λ (u : Unit {0}). Unit) (λ b. b ≡ needs_kube cfg) _ _
            (bind-Always (λ (u : Unit {0}). Unit) (λ (u : Unit {0}). Unit) _ _
              (wrapping-Always (λ (u : Unit {0}). Unit) "failed to get in-cluster config" _
                (call-Always e.in_cluster_config st.in_cluster_config))
              (λ u t.
                wrapping-Always (λ (u : Unit {0}). Unit) "failed to create kubernetes client" _
                  (call-Always e.new_clientset st.new_clientset)))
            (λ u t. pure-Always W (λ b. b ≡ needs_kube cfg) true (sym needed)))
    | inr unneeded ↦
        else-Always (λ b. b ≡ needs_kube cfg) _ _ _ unneeded
          (pure-Always W (λ b. b ≡ needs_kube cfg) false (sym unneeded))
  ]

  -- Who needs a clientset, gets one.
  needs-store :
      cfg.certificate_store.enabled ≡ true
      → cfg.certificate_store.provider ≡ "kube"
      → needs_kube cfg ≡ true
  unfolding needs_kube
  needs-store on p = simp (on, is_name cfg.certificate_store.provider "kube" p) refl

  pub needs-election :
      cfg.leader_election.enabled ≡ true
      → cfg.leader_election.provider ≡ "kube"
      → needs_kube cfg ≡ true
  unfolding needs_kube
  needs-election on p = ground (arith, on, is_name cfg.leader_election.provider "kube" p)

  needs-ingress : cfg.provisioner.provider ≡ "ingress" → needs_kube cfg ≡ true
  unfolding needs_kube
  needs-ingress p = ground (arith, is_name cfg.provisioner.provider "ingress" p)

  pub when_enabled :
      {A : Type 0} (P : Bool → Option A → Type 0) (b : Bool) (m : Action W (Option A))
      → P false none
      → (b ≡ true → Always (P true) m)
      → Always (P b) (if b then m else pure none)
  when_enabled P true m none_ok h = h refl
  when_enabled P false m none_ok h = pure-Always W (P false) none none_ok

  store_of-Ready :
      (client : Bool) (renew_before : D)
      → client ≡ needs_kube cfg
      → cfg.certificate_store.enabled ≡ true
      → OneOf cfg.certificate_store.provider ("kube" ∷ "vault" ∷ "file" ∷ [])
      → Always (StoreReady true) (store_of e client cfg.certificate_store renew_before)
  unfolding store_of vault_store_of
  store_of-Ready client renew_before c on (inl p) =
      then-Always (StoreReady true) _ _ _ (is_name _ _ p)
        (pure-Always W (StoreReady true) _ (c ∙ needs-store on p))
  store_of-Ready client renew_before c on (inr (inl p)) =
      else-Always (StoreReady true) _ _ _ (other_name p "kube" refl) (
        then-Always (StoreReady true) _ _ _ (is_name _ _ p) (
          bind-Always (λ (u : Unit {0}). Unit) (StoreReady true) _ _
            (wrapping-Always (λ (u : Unit {0}). Unit) "failed to create vault certificate store" _
              (wrapping-Always (λ (u : Unit {0}). Unit) "create vault client" _
                (call-Always (e.new_vault_client _) (st.new_vault_client _))))
            (λ u t. pure-Always W (StoreReady true) _ tt)))
  store_of-Ready client renew_before c on (inr (inr (inl p))) =
      else-Always (StoreReady true) _ _ _ (other_name p "kube" refl) (
        else-Always (StoreReady true) _ _ _ (other_name p "vault" refl) (
          then-Always (StoreReady true) _ _ _ (is_name _ _ p)
            (pure-Always W (StoreReady true) _ tt)))
  store_of-Ready client renew_before c on (inr (inr (inr p))) = absurd p

  pub store-Ready :
      (client : Bool)
      → client ≡ needs_kube cfg
      → (cfg.certificate_store.enabled ≡ true
          → OneOf cfg.certificate_store.provider ("kube" ∷ "vault" ∷ "file" ∷ []))
      → Always (StoreReady cfg.certificate_store.enabled) (store e client cfg.certificate_store)
  unfolding store enabled_store
  store-Ready client c one =
      when_enabled StoreReady cfg.certificate_store.enabled
        (enabled_store e client cfg.certificate_store) refl
        λ on.
          bind-Always (λ (d : D). Unit) (StoreReady true) _ _
            (wrapping-Always (λ (d : D). Unit) "invalid certificate_store.renew_before" _
              (call-Always (lift (e.parse_duration cfg.certificate_store.renew_before))
                (λ w. st.renew_before on)))
            (λ d u. store_of-Ready client d c on (one on))

  pub gateway-Ready :
      (client : Bool) (stored : Option (Store D))
      → client ≡ needs_kube cfg
      → IsProvisioner cfg.provisioner
      → Always {W = W} GatewayReady (gateway client stored cfg.provisioner)
  unfolding gateway ingress_gateway
  gateway-Ready client stored c (inl p) =
      then-Always GatewayReady _ _ _ (is_name _ _ p.0) (pure-Always W GatewayReady _ p.1)
  gateway-Ready client stored c (inr (inl p)) =
      else-Always GatewayReady _ _ _ (other_name p "netscaler" refl) (
        then-Always GatewayReady _ _ _ (is_name _ _ p) (
          then-Always GatewayReady client _ _ (c ∙ needs-ingress p)
            (pure-Always W GatewayReady _ (c ∙ needs-ingress p))))
  gateway-Ready client stored c (inr (inr (inl p))) =
      else-Always GatewayReady _ _ _ (other_name p "netscaler" refl) (
        else-Always GatewayReady _ _ _ (other_name p "ingress" refl)
          (then-Always GatewayReady _ _ _ (is_name _ _ p) (pure-Always W GatewayReady _ tt)))
  gateway-Ready client stored c (inr (inr (inr p))) = absurd p
