-- ===== src/Impl/CertstoreKube/Examples.antt =====
-- The theorems on the cached certificates at secrets in memory.

use dynamic_routes_provision.Base.{
  String, ℕ, ◌≡◌, refl, Bool, true, false, Option, none, some, [], ◌∷◌, if◌then◌else◌, arith, eqb,
  ◌==◌,
}
use dynamic_routes_provision.Core.Result.{ok, pure}
use dynamic_routes_provision.Core.Route.{RouteRequest, Certificate}
use dynamic_routes_provision.Core.Interfaces.{Issuer}
use dynamic_routes_provision.Cmd.Names.{dashed}
use dynamic_routes_provision.Impl.CertstoreKube.{
  Secret, Found, found, not_found, SecretApi, Clock, CachingIssuer, secret_to_cert, to_secret,
  secret_name, issue,
}
use dynamic_routes_provision.Impl.CertstoreKube.Roundtrip.{IsClock, secret_to_cert-to_secret}
use dynamic_routes_provision.Impl.CertstoreKube.Hits.{issue-wrong_host, issue-again}

-- The world holds at most one secret.
abbrev World : Type 0
World = Option Secret

abbrev get_one : World → Found Secret × World
get_one none = (not_found, none)
get_one (some s) = (found s, some s)

abbrev one_secret : SecretApi World
one_secret = record {
  get = λ name w. get_one w;
  create = λ s w. (ok tt, some s);
  update = λ s w. (ok tt, some s);
  delete = λ name w. (found tt, none);
}

-- A clock that stands at 0, and a format of two times.
abbrev words : Bool → String
words true = "1000"
words false = "0"

abbrev read : String → Option ℕ
read s = if s == "1000" then some 1000 else some 0

abbrev stopped_clock : Clock World
stopped_clock = record { now = λ w. 0; format = λ t. words (eqb t 1000); parse = read }

abbrev cert_of : String → Certificate
cert_of host = record {
  host = host;
  cert_pem = 1 ∷ [];
  key_pem = 2 ∷ [];
  ca_cert_pem = [];
  not_before = 0;
  not_after = 1000;
  issuer_name = "inner";
}

abbrev inner : Issuer World
inner = record {
  name = "inner";
  issue = λ req. pure (some (cert_of req.host));
  revoke = λ cert. pure tt;
}

abbrev caching : CachingIssuer World
caching = record {
  inner = inner;
  secrets = one_secret;
  clock = stopped_clock;
  secret_prefix = "cert";
  renew_before = 30;
}

abbrev only_1000 : ℕ → ℕ
only_1000 t = if eqb t 1000 then 1000 else 0

read-words : (b : Bool) → read (words b) ≡ some (if b then 1000 else 0)
read-words true = refl
read-words false = refl

abbrev same_times : IsClock stopped_clock
same_times = record { seconds = only_1000; parse_format = λ t. read-words (eqb t 1000) }

abbrev request_for : String → RouteRequest
request_for host = record {
  id = "";
  host = host;
  path = "/";
  backends = [];
  tls = true;
  metadata = [];
  created_at = 0;
}

secret_to_cert-to_secret_example :
    secret_to_cert caching (to_secret caching "cert-a" (cert_of "a.example"))
    ≡ some (cert_of "a.example")
secret_to_cert-to_secret_example =
    secret_to_cert-to_secret caching same_times "cert-a" (cert_of "a.example") (λ e. cc) (λ e. cc)

-- The certificate of a.example is given to a-example.
issue-wrong_host_example :
    (got : Certificate) × (issue caching
        (request_for "a-example")
        (some (to_secret caching (secret_name caching "a.example") (cert_of "a.example")))
      ≡ (
        ok (some got),
        some (to_secret caching (secret_name caching "a.example") (cert_of "a.example")),
      ))
    × (got.host ≡ "a.example")
unfolding dashed
issue-wrong_host_example =
    issue-wrong_host caching same_times (request_for "a-example") "a.example" (cert_of "a.example")
      (some (to_secret caching (secret_name caching "a.example") (cert_of "a.example"))) refl refl
      (refl, (λ e. cc), (λ e. cc), omega arith)

issue-again_example :
    (issue caching (request_for "a.example") none ≡ (
      ok (some (cert_of "a.example")),
      some (to_secret caching (secret_name caching "a.example") (cert_of "a.example")),
    ))
    × (issue caching
          (request_for "a.example")
          (some (to_secret caching (secret_name caching "a.example") (cert_of "a.example")))
        ≡ (
          ok (some (cert_of "a.example")),
          some (to_secret caching (secret_name caching "a.example") (cert_of "a.example")),
        ))
issue-again_example =
    issue-again caching same_times (request_for "a.example") (cert_of "a.example") none none
      (some (to_secret caching (secret_name caching "a.example") (cert_of "a.example")))
      (λ s v v' e. ground arith) refl refl refl refl (λ e. cc) (λ e. cc) (omega arith)
