-- ===== src/Impl/CertSelfsigned.antt =====
-- impl/cert-selfsigned/issuer.go: certificates that sign themselves. Go's crypto packages, the source
-- of random numbers and the clock are parameters.
use dynamic_routes_provision.Base.{String, ℕ, ◌+◌, Option, some, List, [], ◌∷◌}
use dynamic_routes_provision.Core.Result.{Result, Action, pure, lift, ◌>>=◌, wrapping}
use dynamic_routes_provision.Core.Route.{RouteRequest, Certificate}
use dynamic_routes_provision.Core.Interfaces.{Issuer}

-- The template; the key usages, which never vary, are left to the call that signs it.
pub record Template : Type 0 where
  pub serial_number : ℕ
  pub common_name : String
  pub organization : List String
  pub dns_names : List String
  pub not_before : ℕ
  pub not_after : ℕ

-- `serial_number` is a random number below `2 ^ 128`; a private key is its own bytes.
pub record Crypto (W : Type 0) : Type 0 where
  pub generate_key : Action W (List ℕ)
  pub serial_number : Action W ℕ
  pub now : W → ℕ × W
  pub create_certificate : Template → List ℕ → Action W (List ℕ)
  pub marshal_private_key : List ℕ → Result (List ℕ)
  pub encode_pem : String → List ℕ → List ℕ

pub record SelfSignedIssuer (W : Type 0) : Type 0 where
  pub crypto : Crypto W
  pub validity : ℕ
  pub organization : String

module _ {W : Type 0} (i : SelfSignedIssuer W) where
  clock : Action W ℕ
  clock w = let (t, w') = i.crypto.now w in pure t w'

  template : String → ℕ → ℕ → Template
  template host serial now = record {
    serial_number = serial;
    common_name = host;
    organization = i.organization ∷ [];
    dns_names = host ∷ [];
    not_before = now;
    not_after = now + i.validity;
  }

  pub issue : RouteRequest → Action W (Option Certificate)
  unfolding clock template
  issue req = do
    key ← wrapping "generate key" i.crypto.generate_key
    serial ← wrapping "generate serial" i.crypto.serial_number
    now ← clock
    cert_der ←
        wrapping "create certificate"
          (i.crypto.create_certificate (template req.host serial now) key)
    key_der ← wrapping "marshal key" (lift (i.crypto.marshal_private_key key))
    pure (
        some (record {
          host = req.host;
          cert_pem = i.crypto.encode_pem "CERTIFICATE" cert_der;
          key_pem = i.crypto.encode_pem "EC PRIVATE KEY" key_der;
          ca_cert_pem = [];
          not_before = now;
          not_after = now + i.validity;
          issuer_name = "self-signed";
        }))

  abbrev pub self_signed_issuer : Issuer W
  self_signed_issuer = record { name = "self-signed"; issue = issue; revoke = λ cert. pure tt }
