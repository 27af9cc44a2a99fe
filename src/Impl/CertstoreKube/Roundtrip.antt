-- ===== src/Impl/CertstoreKube/Roundtrip.antt =====
-- impl/certstore-kube/issuer.go: from a certificate to a secret and back.
use dynamic_routes_provision.Base.{
  String, ℕ, ◌≡◌, ◌≢◌, refl, ap, false, some, List, [], ◌∷◌, if◌then◌else◌,
}
use dynamic_routes_provision.Core.Dict.{lookup}
use dynamic_routes_provision.Core.Route.{Certificate}
use dynamic_routes_provision.Impl.CertstoreKube.{
  CachingIssuer, Clock, bytes, text, is_empty, time_of, parsed, secret_to_cert, to_secret,
}

-- What RFC 3339 keeps of a time: its seconds.
pub record IsClock {W : Type 0} (k : Clock W) : Type 0 where
  pub seconds : ℕ → ℕ
  pub parse_format : (t : ℕ) → k.parse (k.format t) ≡ some (seconds t)

-- The certificate with its times cut to seconds.
abbrev pub in_seconds : (ℕ → ℕ) → Certificate → Certificate
in_seconds seconds cert = record cert {
  not_before = seconds cert.not_before;
  not_after = seconds cert.not_after;
}

is_empty-false : (bs : List ℕ) → bs ≢ [] → is_empty bs ≡ false
unfolding is_empty
is_empty-false [] ne = absurd (ne refl)
is_empty-false (b ∷ bs) ne = refl

module _ {W : Type 0} (c : CachingIssuer W) (k : IsClock c.clock) where
  time_of-format : (t : ℕ) → time_of c (some (c.clock.format t)) ≡ k.seconds t
  unfolding time_of parsed
  time_of-format t = ap parsed (k.parse_format t)

  ca-lookup :
      (ca : List ℕ) (a b : List ℕ)
      → bytes (
          lookup "ca.crt"
            (("tls.crt", a) ∷ ("tls.key", b) ∷ (if is_empty ca then [] else ("ca.crt", ca) ∷ [])))
        ≡ ca
  unfolding bytes lookup is_empty
  ca-lookup [] a b = refl
  ca-lookup (x ∷ ca) a b = refl

  -- Where a formatted time is parsed to its seconds, a certificate with a key, written to a
  -- secret of any name, is read back from it as it was, but for its times, which are cut to
  -- seconds.
  pub secret_to_cert-to_secret :
      (name : String) (cert : Certificate)
      → cert.cert_pem ≢ []
      → cert.key_pem ≢ []
      → secret_to_cert c (to_secret c name cert) ≡ some (in_seconds k.seconds cert)
  unfolding secret_to_cert to_secret lookup bytes text
  secret_to_cert-to_secret name cert nc nk =
      simp (is_empty-false cert.cert_pem nc, is_empty-false cert.key_pem nk)
        (λ i. some (record cert {
          ca_cert_pem = ca-lookup cert.ca_cert_pem cert.cert_pem cert.key_pem i;
          not_before = time_of-format cert.not_before i;
          not_after = time_of-format cert.not_after i;
        }))
