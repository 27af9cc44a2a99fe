-- ===== src/Impl/CertstoreVault.antt =====
-- impl/certstore-vault/issuer.go: an issuer that keeps the certificates of another one in the
-- key-value engine of Vault. The client, the clock and the time format RFC 3339 are parameters.

pub mod Answers
pub mod Roundtrip
mod Examples
use dynamic_routes_provision.Base.{
  String, ℕ, ◌+◌, ◌⧺◌, ◌==◌, ◌||◌, Option, none, some, List, [], ◌∷◌, ltb, if◌then◌else◌,
}
use dynamic_routes_provision.Core.Dict.{Dict, lookup}
use dynamic_routes_provision.Core.Result.{
  Result, ok, err, panic, Action, pure, crash, ◌>>=◌, ◌>>◌, try_catch,
}
use dynamic_routes_provision.Core.Route.{RouteRequest, Certificate}
use dynamic_routes_provision.Core.Interfaces.{Issuer}
use dynamic_routes_provision.Impl.VaultApi.{
  Value, string, array, object, other, Secret, Logical, Bytes,
}
use dynamic_routes_provision.Cmd.Names.{safe_name}

-- `now` is the time that `time.Until` reads; `format` is in UTC.
pub record Clock (W : Type 0) : Type 0 where
  pub now : W → ℕ
  pub format : ℕ → String
  pub parse : String → Option ℕ

pub record CachingIssuer (W : Type 0) : Type 0 where
  pub inner : Issuer W
  pub logical : Logical W
  pub clock : Clock W
  pub conversions : Bytes
  pub mount : String
  pub prefix : String
  pub renew_before : ℕ

text_or_empty : Option String → String
text_or_empty none = ""
text_or_empty (some s) = s

parsed_or_zero : Option ℕ → ℕ
parsed_or_zero none = 0
parsed_or_zero (some t) = t

module _ {W : Type 0} (c : CachingIssuer W) where
  -- The path under `data` or `metadata`.
  path_of : String → String → String
  unfolding safe_name
  path_of kind host = c.mount ⧺ "/" ⧺ kind ⧺ "/" ⧺ c.prefix ⧺ "/" ⧺ safe_name host

  pub secret_path : String → String
  unfolding path_of
  secret_path host = path_of "data" host

  -- A time that is missing or cannot be parsed stays the zero time.
  time_of : Option String → ℕ
  unfolding parsed_or_zero
  time_of none = 0
  time_of (some s) = parsed_or_zero (c.clock.parse s)

  -- No chain, when its text is empty.
  chain_of : String → List ℕ
  chain_of s = if s == "" then [] else c.conversions.bytes s

  cert_of : Dict String → Option Certificate
  unfolding lookup text_or_empty time_of chain_of
  cert_of data_of =
      let cert_pem = text_or_empty (lookup "cert_pem" data_of) in
      let key_pem = text_or_empty (lookup "key_pem" data_of) in
      if cert_pem == "" || key_pem == ""
      then none
      else some (record {
        host = text_or_empty (lookup "host" data_of);
        cert_pem = c.conversions.bytes cert_pem;
        key_pem = c.conversions.bytes key_pem;
        ca_cert_pem = chain_of (text_or_empty (lookup "ca_pem" data_of));
        not_before = time_of (lookup "not_before" data_of);
        not_after = time_of (lookup "not_after" data_of);
        issuer_name = text_or_empty (lookup "issuer" data_of);
      })

  value_to_cert : Option Value → Option Certificate
  unfolding cert_of
  value_to_cert none = none
  value_to_cert (some (string s)) = none
  value_to_cert (some (array vs)) = none
  value_to_cert (some (object fields)) = cert_of fields
  value_to_cert (some other) = none

  pub secret_to_cert : Dict Value → Option Certificate
  unfolding value_to_cert lookup
  secret_to_cert fields = value_to_cert (lookup "data" fields)

  pub to_data : Certificate → Dict Value
  to_data cert =
      (
        "data",
        object (
            ("host", cert.host)
            ∷ ("issuer", cert.issuer_name)
            ∷ ("cert_pem", c.conversions.text cert.cert_pem)
            ∷ ("key_pem", c.conversions.text cert.key_pem)
            ∷ ("ca_pem", c.conversions.text cert.ca_cert_pem)
            ∷ ("not_before", c.clock.format cert.not_before)
            ∷ ("not_after", c.clock.format cert.not_after)
            ∷ []),
      )
      ∷ []

  -- A nil certificate panics when its fields are read.
  store_cert : String → Option Certificate → Action W (Unit {0})
  unfolding to_data secret_path
  store_cert host none = crash
  store_cert host (some cert) = c.logical.write (secret_path host) (to_data cert) >> pure tt

  -- An error of the store is logged and dropped.
  keep : String → Option Certificate → Action W (Option Certificate)
  unfolding store_cert
  keep host cert = try_catch (store_cert host cert) (λ e. pure cert) (λ u. pure cert)

  reissue : RouteRequest → Action W (Option Certificate)
  unfolding keep
  reissue req = c.inner.issue req >>= keep req.host

  -- `cert != nil && time.Until(cert.NotAfter) > c.cfg.renewBefore`
  if_fresh : RouteRequest → Option Certificate → Action W (Option Certificate)
  unfolding reissue
  if_fresh req none w = reissue req w
  if_fresh req (some cert) w =
      if ltb (c.clock.now w + c.renew_before) cert.not_after
      then (ok (some cert), w)
      else reissue req w

  cached : RouteRequest → Option Secret → Action W (Option Certificate)
  unfolding if_fresh secret_to_cert
  cached req none = reissue req
  cached req (some none) = reissue req
  cached req (some (some fields)) = if_fresh req (secret_to_cert fields)

  -- An error of the reading is logged, and the certificate issued again.
  pub issue : RouteRequest → Action W (Option Certificate)
  unfolding cached secret_path
  issue req = try_catch (c.logical.read (secret_path req.host)) (λ e. reissue req) (cached req)

  -- An error of the deletion is logged and dropped.
  pub revoke : Certificate → Action W (Unit {0})
  unfolding path_of
  revoke cert =
      try_catch (c.logical.delete (path_of "metadata" cert.host)) (λ e. c.inner.revoke cert)
        (λ s. c.inner.revoke cert)

  abbrev pub caching_issuer : Issuer W
  caching_issuer = record { name = c.inner.name; issue = issue; revoke = revoke }
