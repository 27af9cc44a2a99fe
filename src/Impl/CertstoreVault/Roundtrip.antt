-- ===== src/Impl/CertstoreVault/Roundtrip.antt =====
-- impl/certstore-vault/issuer.go: from a certificate to a secret and back.
use dynamic_routes_provision.Base.{
  String, ℕ, ◌+◌, ◌<◌, ◌⧺◌, ◌==◌, ◌≡◌, ◌≢◌, sym, ap, ◌∙◌, false, some, List, [], arith, eq_iff,
}
use dynamic_routes_provision.Core.Dict.{lookup}
use dynamic_routes_provision.Core.Result.{ok}
use dynamic_routes_provision.Core.Route.{RouteRequest, Certificate}
use dynamic_routes_provision.Cmd.Names.{dashed, safe_name-dashed}
use dynamic_routes_provision.Impl.VaultApi.{Bytes}
use dynamic_routes_provision.Impl.CertstoreVault.{
  CachingIssuer, Clock, text_or_empty, parsed_or_zero, time_of, chain_of, cert_of, value_to_cert,
  secret_to_cert, to_data, path_of, secret_path, if_fresh, cached, issue,
}

-- What RFC 3339 keeps of a time: its seconds.
pub record IsClock {W : Type 0} (k : Clock W) : Type 0 where
  pub seconds : ℕ → ℕ
  pub parse_format : (t : ℕ) → k.parse (k.format t) ≡ some (seconds t)

-- A string keeps the bytes that it is made of, and the empty string has none.
pub record IsBytes (b : Bytes) : Type 0 where
  pub bytes_text : (bs : List ℕ) → b.bytes (b.text bs) ≡ bs
  pub bytes_empty : b.bytes "" ≡ []

-- The certificate with its times cut to seconds.
abbrev pub cut : (ℕ → ℕ) → Certificate → Certificate
cut seconds cert = record cert {
  not_before = seconds cert.not_before;
  not_after = seconds cert.not_after;
}

module _ {W : Type 0} (c : CachingIssuer W) (k : IsClock c.clock) (b : IsBytes c.conversions) where
  time_of-format : (t : ℕ) → time_of c (some (c.clock.format t)) ≡ k.seconds t
  unfolding time_of parsed_or_zero
  time_of-format t = ap parsed_or_zero (k.parse_format t)

  text_empty : (bs : List ℕ) → c.conversions.text bs ≡ "" → bs ≡ []
  text_empty bs e = sym (b.bytes_text bs) ∙ ap c.conversions.bytes e ∙ b.bytes_empty

  text-filled : (bs : List ℕ) → bs ≢ [] → (c.conversions.text bs == "") ≡ false
  text-filled bs ne =
      let no : c.conversions.text bs ≢ "" = λ e. ne (text_empty bs e) in
      ground (arith, no, eq_iff (c.conversions.text bs) "")

  chain_of-text : (ca : List ℕ) → chain_of c (c.conversions.text ca) ≡ ca
  unfolding chain_of
  chain_of-text ca =
      let gone = text_empty ca in
      let same = b.bytes_text ca in ground (arith, gone, same, eq_iff (c.conversions.text ca) "")

  -- Where a formatted time is parsed to its seconds and a string keeps its bytes, the data of a
  -- secret made from a certificate with a key is read back as the certificate as it was, but for
  -- its times, which are cut to seconds.
  pub secret_to_cert-to_data :
      (cert : Certificate)
      → cert.cert_pem ≢ []
      → cert.key_pem ≢ []
      → secret_to_cert c (to_data c cert) ≡ some (cut k.seconds cert)
  unfolding secret_to_cert to_data value_to_cert cert_of lookup text_or_empty
  secret_to_cert-to_data cert nc nk =
      simp (text-filled cert.cert_pem nc, text-filled cert.key_pem nk)
        (λ i. some (record cert {
          cert_pem = b.bytes_text cert.cert_pem i;
          key_pem = b.bytes_text cert.key_pem i;
          ca_cert_pem = chain_of-text cert.ca_cert_pem i;
          not_before = time_of-format cert.not_before i;
          not_after = time_of-format cert.not_after i;
        }))

  secret_path-dashed : (host : String) → secret_path c (dashed host) ≡ secret_path c host
  unfolding secret_path path_of
  secret_path-dashed host =
      ap (λ (s : String). c.mount ⧺ "/" ⧺ "data" ⧺ "/" ⧺ c.prefix ⧺ "/" ⧺ s) (safe_name-dashed host)

  -- Where a formatted time is parsed to its seconds and a string keeps its bytes: when Vault holds
  -- a certificate of a host, with a key and not near its expiry, a request for the host with its
  -- dots replaced by dashes is given that certificate, with the other host's name in it: the host
  -- is not compared.
  pub issue-dashed_host :
      (req : RouteRequest) (host : String) (cert : Certificate) (w : W)
      → req.host ≡ dashed host
      → cert.host ≡ host
      → cert.cert_pem ≢ []
      → cert.key_pem ≢ []
      → c.logical.read (secret_path c host) w ≡ (ok (some (some (to_data c cert))), w)
      → c.clock.now w + c.renew_before < k.seconds cert.not_after
      → (got : Certificate) × (issue c req w ≡ (ok (some got), w)) × (got.host ≡ host)
  unfolding issue cached if_fresh
  issue-dashed_host req host cert w named same nc nk here fresh = (
    cut k.seconds cert,
    rw (ap (secret_path c) named ∙ secret_path-dashed host, here, secret_to_cert-to_data cert nc nk)
        (ground (arith, fresh)),
    same,
  )
