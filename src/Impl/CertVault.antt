-- ===== src/Impl/CertVault.antt =====
-- impl/cert-vault/issuer.go: certificates from the PKI engine of Vault. The client and Go's crypto
-- packages are parameters.
use Prim.Native.Nat.{◌%◌, ◌/◌}
use Prim.Native.String as Text
use dynamic_routes_provision.Base.{
  String, ℕ, suc, ◌⧺◌, ◌==◌, ◌||◌, Option, none, some, List, [], ◌∷◌, ◌++◌, if◌then◌else◌,
}
use dynamic_routes_provision.Core.Dict.{lookup}
use dynamic_routes_provision.Core.Result.{
  errorf, Result, Action, pure, raise, lift, ◌>>=◌, ◌>>◌, wrapping,
}
use dynamic_routes_provision.Core.Route.{RouteRequest, Certificate}
use dynamic_routes_provision.Core.Interfaces.{Issuer}
use dynamic_routes_provision.Impl.VaultApi.{
  Value, string, array, object, other, Secret, Logical, Bytes,
}

pub record Parsed : Type 0 where
  pub not_before : ℕ
  pub not_after : ℕ
  pub serial_number : List ℕ

-- `pem.Decode` and `x509.ParseCertificate`.
pub record Decoder : Type 0 where
  pub decode_pem : List ℕ → Option (List ℕ)
  pub parse_certificate : List ℕ → Result Parsed

pub record VaultIssuer (W : Type 0) : Type 0 where
  pub logical : Logical W
  pub decoder : Decoder
  pub conversions : Bytes
  pub mount : String
  pub role : String
  pub ttl : String

-- `s, _ := ….(string)`
string_at : Option Value → String
string_at none = ""
string_at (some (string s)) = s
string_at (some (array vs)) = ""
string_at (some (object o)) = ""
string_at (some other) = ""

array_at : Option Value → List (Option String)
array_at none = []
array_at (some (string s)) = []
array_at (some (array vs)) = vs
array_at (some (object o)) = []
array_at (some other) = []

-- `%02x` of a byte.
hex : ℕ → String
hex b =
    Text.slice "0123456789abcdef" (b / 16) (suc (b / 16))
    ⧺ Text.slice "0123456789abcdef" (b % 16) (suc (b % 16))

unfoldable pub format_serial : List ℕ → String
unfolding hex
format_serial [] = ""
format_serial (b ∷ []) = hex b
format_serial (b ∷ b' ∷ bs) = hex b ⧺ ":" ⧺ format_serial (b' ∷ bs)

module _ {W : Type 0} (v : VaultIssuer W) where
  -- The strings of the chain, each with a newline.
  ca_chain : List (Option String) → List ℕ
  ca_chain [] = []
  ca_chain (none ∷ rest) = ca_chain rest
  ca_chain (some s ∷ rest) = v.conversions.bytes s ++ 10 ∷ ca_chain rest

  decoded : String → Option (List ℕ) → Action W (List ℕ)
  decoded message none = raise (errorf message)
  decoded message (some block) = pure block

  certificate_of : String → String → String → List (Option String) → Action W (Option Certificate)
  unfolding ca_chain decoded
  certificate_of host cert_pem key_pem chain = do
    block ←
        decoded "vault pki issue: failed to decode certificate PEM"
          (v.decoder.decode_pem (v.conversions.bytes cert_pem))
    leaf ← wrapping "vault pki issue: parse certificate" (lift (v.decoder.parse_certificate block))
    pure (
        some (record {
          host = host;
          cert_pem = v.conversions.bytes cert_pem;
          key_pem = v.conversions.bytes key_pem;
          ca_cert_pem = ca_chain chain;
          not_before = leaf.not_before;
          not_after = leaf.not_after;
          issuer_name = "vault-pki";
        }))

  -- The response of the engine; none for one that is nil or has no data.
  from_response : String → Option Secret → Action W (Option Certificate)
  unfolding string_at array_at certificate_of lookup
  from_response host none = raise (errorf "vault pki issue: empty response")
  from_response host (some none) = raise (errorf "vault pki issue: empty response")
  from_response host (some (some fields)) =
      let cert_pem = string_at (lookup "certificate" fields) in
      let key_pem = string_at (lookup "private_key" fields) in
      if cert_pem == "" || key_pem == ""
      then raise (errorf "vault pki issue: missing certificate or private_key in response")
      else certificate_of host cert_pem key_pem (array_at (lookup "ca_chain" fields))

  pub issue : RouteRequest → Action W (Option Certificate)
  unfolding from_response
  issue req = do
    response ← wrapping "vault pki issue" (
        v.logical.write (v.mount ⧺ "/issue/" ⧺ v.role)
          (("common_name", string req.host) ∷ ("ttl", string v.ttl) ∷ []))
    from_response req.host response

  pub revoke : Certificate → Action W (Unit {0})
  unfolding decoded format_serial
  revoke cert = do
    block ← decoded "failed to decode certificate PEM" (v.decoder.decode_pem cert.cert_pem)
    parsed ← wrapping "parse certificate" (lift (v.decoder.parse_certificate block))
    wrapping "vault pki revoke" (
        v.logical.write (v.mount ⧺ "/revoke")
          (("serial_number", string (format_serial parsed.serial_number)) ∷ []))
    pure tt

  abbrev pub vault_issuer : Issuer W
  vault_issuer = record { name = "vault-pki"; issue = issue; revoke = revoke }
