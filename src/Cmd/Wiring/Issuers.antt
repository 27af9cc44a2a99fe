-- ===== src/Cmd/Wiring/Issuers.antt =====
-- cmd/routes-provisioner/main.go: the certificate issuer, the Kubernetes client, and the certificate
-- store; with the defaults of the packages' options.
use dynamic_routes_provision.Base.{
  String, ◌==◌, ◌&&◌, ◌||◌, Bool, true, false, Option, none, some, if◌then◌else◌,
}
use dynamic_routes_provision.Core.Result.{Action, pure, lift, ◌>>=◌, ◌>>◌, wrapping}
use dynamic_routes_provision.Cmd.Config.{Config, CertificateConfig, CertificateStoreConfig}
use dynamic_routes_provision.Cmd.Wiring.Parts.{
  Env, Issuer, cert_none, acme_http, acme_dns, self_signed, vault, Store, kube_store, vault_store,
  file_store, or_default,
}

abbrev pub default_directory_url : String
default_directory_url = "https://acme-v02.api.letsencrypt.org/directory"

abbrev pub default_vault_address : String
default_vault_address = "http://127.0.0.1:8200"

-- `needsKube`
unfoldable pub needs_kube : Config → Bool
needs_kube cfg =
    (cfg.certificate_store.enabled && cfg.certificate_store.provider == "kube")
    || (cfg.leader_election.enabled && cfg.leader_election.provider == "kube")
    || cfg.provisioner.provider == "ingress"

module _ {W D : Type 0} (e : Env W D) where
  -- No account key is passed, so that the constructor makes one.
  unfoldable pub acme_http_issuer : CertificateConfig → Action W (Option (Issuer D))
  acme_http_issuer c =
      wrapping "failed to create acme issuer"
        (wrapping "generate account key" e.generate_account_key)
      >> pure (
          some
            (acme_http c.challenge_port c.email (or_default c.directory_url default_directory_url)))

  -- The DNS provider that is passed is nil.
  unfoldable pub acme_dns_issuer : CertificateConfig → Action W (Option (Issuer D))
  acme_dns_issuer c =
      wrapping "failed to create acme-dns issuer"
        (wrapping "generate account key" e.generate_account_key)
      >> pure (some (acme_dns false c.email (or_default c.directory_url default_directory_url)))

  unfoldable pub self_signed_issuer : CertificateConfig → Action W (Option (Issuer D))
  self_signed_issuer c =
      if c.validity == ""
      then pure (some (self_signed none (or_default c.organization "Self-Signed")))
      else do
        validity ← wrapping "invalid certificate.validity" (lift (e.parse_duration c.validity))
        pure (some (self_signed (some validity) (or_default c.organization "Self-Signed")))

  -- The package's default address is passed to the client when none is configured.
  unfoldable pub vault_issuer : CertificateConfig → Action W (Option (Issuer D))
  vault_issuer c =
      let address = or_default c.vault_address default_vault_address in
      wrapping "failed to create vault issuer"
        (wrapping "create vault client" (e.new_vault_client address))
      >> pure (
          some (
            vault address c.vault_token (or_default c.vault_mount "pki") c.vault_role
              (or_default c.vault_ttl "720h")))

  unfoldable pub issuer : CertificateConfig → Action W (Option (Issuer D))
  unfolding acme_http_issuer acme_dns_issuer self_signed_issuer vault_issuer
  issuer c =
      if c.provider == "none"
      then pure (some cert_none)
      else if c.provider == "acme-http"
      then acme_http_issuer c
      else if c.provider == "acme-dns"
      then acme_dns_issuer c
      else if c.provider == "selfsigned"
      then self_signed_issuer c
      else if c.provider == "vault"
      then vault_issuer c
      else pure none

  -- Whether there is a clientset.
  unfoldable pub clientset : Config → Action W Bool
  unfolding needs_kube
  clientset cfg =
      if needs_kube cfg
      then wrapping "failed to get in-cluster config" e.in_cluster_config
        >> wrapping "failed to create kubernetes client" e.new_clientset
        >> pure true
      else pure false

  unfoldable pub vault_store_of : CertificateStoreConfig → D → Action W (Option (Store D))
  vault_store_of s renew_before =
      let address = or_default s.vault_address default_vault_address in
      wrapping "failed to create vault certificate store"
        (wrapping "create vault client" (e.new_vault_client address))
      >> pure (
          some (
            vault_store address s.vault_token (or_default s.vault_mount "secret")
              (or_default s.vault_prefix "route-tls") renew_before))

  unfoldable pub store_of : Bool → CertificateStoreConfig → D → Action W (Option (Store D))
  unfolding vault_store_of
  store_of client s renew_before =
      if s.provider == "kube"
      then pure (some (kube_store client s.namespace s.secret_prefix renew_before))
      else if s.provider == "vault"
      then vault_store_of s renew_before
      else if s.provider == "file"
      then pure (some (file_store s.dir renew_before))
      else pure none

  unfoldable pub enabled_store : Bool → CertificateStoreConfig → Action W (Option (Store D))
  unfolding store_of
  enabled_store client s = do
    renew_before ←
        wrapping "invalid certificate_store.renew_before" (lift (e.parse_duration s.renew_before))
    store_of client s renew_before

  unfoldable pub store : Bool → CertificateStoreConfig → Action W (Option (Store D))
  unfolding enabled_store
  store client s = if s.enabled then enabled_store client s else pure none
