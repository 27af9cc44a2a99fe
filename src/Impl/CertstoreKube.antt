-- ===== src/Impl/CertstoreKube.antt =====
-- impl/certstore-kube/issuer.go: an issuer that keeps the certificates of another one in Kubernetes
-- secrets. The API of the secrets, the clock, and the time format RFC 3339 are parameters. The
-- namespace and the labels, which every secret shares, are left out.
pub mod Roundtrip
pub mod Hits
pub mod Examples
use dynamic_routes_provision.Base.{
  String, ℕ, ◌+◌, ◌⧺◌, Bool, true, false, ◌||◌, Option, none, some, List, [], ◌∷◌, ◌++◌, ltb,
  if◌then◌else◌,
}
use dynamic_routes_provision.Core.Dict.{Dict, lookup}
use dynamic_routes_provision.Core.Result.{
  Error, wrap, Result, ok, err, panic, Action, pure, raise, crash, ◌>>=◌, try_catch,
}
use dynamic_routes_provision.Core.Route.{RouteRequest, Certificate}
use dynamic_routes_provision.Core.Interfaces.{Issuer}
use dynamic_routes_provision.Cmd.Names.{safe_name, truncated}

pub record Secret : Type 0 where
  pub name : String
  pub annotations : Dict String
  pub data_of : Dict (List ℕ)

-- What `Get` and `Delete` answer; `k8serr.IsNotFound` tells one error from the others.
pub data Found (A : Type 0) : Type 0 where
  found : A → Found A
  not_found : Found A
  failed : Error → Found A

pub record SecretApi (W : Type 0) : Type 0 where
  pub get : String → W → Found Secret × W
  pub create : Secret → Action W (Unit {0})
  pub update : Secret → Action W (Unit {0})
  pub delete : String → W → Found (Unit {0}) × W

-- `now` is the time that `time.Until` reads.
pub record Clock (W : Type 0) : Type 0 where
  pub now : W → ℕ
  pub format : ℕ → String
  pub parse : String → Option ℕ

pub record CachingIssuer (W : Type 0) : Type 0 where
  pub inner : Issuer W
  pub secrets : SecretApi W
  pub clock : Clock W
  pub secret_prefix : String
  pub renew_before : ℕ

bytes : Option (List ℕ) → List ℕ
bytes none = []
bytes (some bs) = bs

text : Option String → String
text none = ""
text (some s) = s

is_empty : List ℕ → Bool
is_empty [] = true
is_empty (b ∷ bs) = false

parsed : Option ℕ → ℕ
parsed none = 0
parsed (some t) = t

module _ {W : Type 0} (c : CachingIssuer W) where
  pub secret_name : String → String
  unfolding safe_name truncated
  secret_name host = truncated (c.secret_prefix ⧺ "-" ⧺ safe_name host)

  -- A time that is missing or cannot be parsed stays the zero time.
  time_of : Option String → ℕ
  unfolding parsed
  time_of none = 0
  time_of (some s) = parsed (c.clock.parse s)

  pub secret_to_cert : Secret → Option Certificate
  unfolding lookup bytes text is_empty time_of
  secret_to_cert s =
      let cert_pem = bytes (lookup "tls.crt" s.data_of) in
      let key_pem = bytes (lookup "tls.key" s.data_of) in
      if is_empty cert_pem || is_empty key_pem
      then none
      else some (record {
        host = text (lookup "route-provisioner/host" s.annotations);
        cert_pem = cert_pem;
        key_pem = key_pem;
        ca_cert_pem = bytes (lookup "ca.crt" s.data_of);
        not_before = time_of (lookup "route-provisioner/not-before" s.annotations);
        not_after = time_of (lookup "route-provisioner/not-after" s.annotations);
        issuer_name = text (lookup "route-provisioner/issuer" s.annotations);
      })

  -- The secret that `storeCert` builds.
  pub to_secret : String → Certificate → Secret
  unfolding is_empty
  to_secret name cert = record {
    name = name;
    annotations =
        ("route-provisioner/host", cert.host)
        ∷ ("route-provisioner/issuer", cert.issuer_name)
        ∷ ("route-provisioner/not-before", c.clock.format cert.not_before)
        ∷ ("route-provisioner/not-after", c.clock.format cert.not_after)
        ∷ [];
    data_of =
        ("tls.crt", cert.cert_pem)
        ∷ ("tls.key", cert.key_pem)
        ∷ (if is_empty cert.ca_cert_pem then [] else ("ca.crt", cert.ca_cert_pem) ∷ []);
  }

  put_secret : Secret → Found Secret → Action W (Unit {0})
  put_secret s (found old) = c.secrets.update s
  put_secret s not_found = c.secrets.create s
  put_secret s (failed e) = raise e

  pub store_cert : String → Certificate → Action W (Unit {0})
  unfolding to_secret put_secret
  store_cert name cert w =
      let (r, w') = c.secrets.get name w in put_secret (to_secret name cert) r w'

  -- An error of the store is logged and dropped; a nil certificate panics in it.
  keep : String → Option Certificate → Action W (Option Certificate)
  unfolding store_cert
  keep name none = crash
  keep name (some cert) =
      try_catch (store_cert name cert) (λ _. pure (some cert)) (λ _. pure (some cert))

  reissue : RouteRequest → String → Action W (Option Certificate)
  unfolding keep
  reissue req name = c.inner.issue req >>= keep name

  -- `cert != nil && time.Until(cert.NotAfter) > c.cfg.renewBefore`
  if_fresh : RouteRequest → String → Option Certificate → Action W (Option Certificate)
  unfolding reissue
  if_fresh req name none w = reissue req name w
  if_fresh req name (some cert) w =
      if ltb (c.clock.now w + c.renew_before) cert.not_after
      then (ok (some cert), w)
      else reissue req name w

  cached : RouteRequest → String → Found Secret → Action W (Option Certificate)
  unfolding if_fresh secret_to_cert
  cached req name (found s) = if_fresh req name (secret_to_cert s)
  cached req name not_found = reissue req name
  cached req name (failed e) = raise (wrap ("get secret " ⧺ name) e)

  pub issue : RouteRequest → Action W (Option Certificate)
  unfolding cached secret_name
  issue req w =
      let name = secret_name req.host in let (r, w') = c.secrets.get name w in cached req name r w'

  -- An error of the deletion is logged and dropped.
  pub revoke : Certificate → Action W (Unit {0})
  unfolding secret_name
  revoke cert w = c.inner.revoke cert (c.secrets.delete (secret_name cert.host) w).1

  abbrev pub caching_issuer : Issuer W
  caching_issuer = record { name = c.inner.name; issue = issue; revoke = revoke }
