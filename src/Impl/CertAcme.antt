-- ===== src/Impl/CertAcme.antt =====
-- impl/cert-acme-http/issuer.go and impl/cert-acme-dns/issuer.go: the issuers that speak ACME, and
-- what the two files share word for word: the flow of `Issue` but for the authorizations,
-- `encodeDERChain` and `Revoke`. The client of golang.org/x/crypto/acme is a parameter, and so are
-- the keys, requests and PEM blocks of Go's crypto packages.
pub mod Http
pub mod Dns
pub mod Rules
pub mod Beside
use dynamic_routes_provision.Base.{
  String, ℕ, ◌⧺◌, ◌==◌, Bool, Option, none, some, List, [], ◌∷◌, ◌++◌, if◌then◌else◌,
}
use dynamic_routes_provision.Core.Result.{
  Error, errorf, Result, ok, err, panic, Action, pure, raise, lift, ◌>>=◌, ◌>>◌, try_catch,
  wrapping,
}
use dynamic_routes_provision.Core.Route.{RouteRequest, Certificate}

-- `acme.Challenge`, with `Type` as `kind`.
pub record Challenge : Type 0 where
  pub kind : String
  pub token : String

pub record Authorization : Type 0 where
  pub status : String
  pub challenges : List Challenge

pub record Order : Type 0 where
  pub authz_urls : List String
  pub uri : String
  pub finalize_url : String

-- `acme.Client`. `register` takes the contacts of the account; `is_account_exists` tells
-- `acme.ErrAccountAlreadyExists` from the other errors.
pub record Client (W : Type 0) : Type 0 where
  pub register : List String → Action W (Unit {0})
  pub is_account_exists : Error → Bool
  pub authorize_order : String → Action W Order
  pub get_authorization : String → Action W Authorization
  pub http01_challenge_response : String → Action W String
  pub dns01_challenge_record : String → Action W String
  pub accept : Challenge → Action W (Unit {0})
  pub wait_authorization : String → Action W (Unit {0})
  pub wait_order : String → Action W Order
  pub create_order_cert : String → List ℕ → Action W (List (List ℕ))
  pub revoke_cert : List ℕ → Action W (Unit {0})

-- The leaf's `NotBefore` and `NotAfter`.
pub record Leaf : Type 0 where
  pub not_before : ℕ
  pub not_after : ℕ

-- The crypto packages; a private key is its own bytes.
pub record Crypto (W : Type 0) : Type 0 where
  pub generate_key : Action W (List ℕ)
  pub create_certificate_request : String → List ℕ → Action W (List ℕ)
  pub marshal_private_key : List ℕ → Result (List ℕ)
  pub encode_pem : String → List ℕ → List ℕ
  pub decode_pem : List ℕ → Option (List ℕ)
  pub parse_certificate : List ℕ → Result Leaf

-- `acct.Contact`
contacts : String → List String
contacts email = if email == "" then [] else ("mailto:" ⧺ email) ∷ []

-- `derChain[0]` panics on an empty chain.
first : List (List ℕ) → Result (List ℕ)
first [] = panic
first (der ∷ rest) = ok der

-- The first challenge of a kind.
unfoldable pub find_challenge : String → List Challenge → Option Challenge
find_challenge kind [] = none
find_challenge kind (c ∷ rest) =
    let later = find_challenge kind rest in if c.kind == kind then some c else later

module _ {W : Type 0} (k : Crypto W) where
  -- The blocks of the chain behind the leaf, one after the other.
  ca_blocks : List (List ℕ) → List ℕ
  ca_blocks [] = []
  ca_blocks (der ∷ rest) = k.encode_pem "CERTIFICATE" der ++ ca_blocks rest

  encode_der_chain : List (List ℕ) → Result (List ℕ × List ℕ)
  unfolding ca_blocks
  encode_der_chain [] = err (errorf "empty certificate chain")
  encode_der_chain (leaf ∷ rest) = ok (k.encode_pem "CERTIFICATE" leaf, ca_blocks rest)

module _ {W : Type 0} (client : Client W) (k : Crypto W) where
  -- An account that exists already is no error.
  register_account : String → Action W (Unit {0})
  unfolding contacts
  register_account email =
      try_catch (client.register (contacts email))
        (λ e. if client.is_account_exists e then pure tt else wrapping "register account" (raise e))
        pure

  -- The loop over the authorizations of an order.
  fulfill_all : (String → Action W (Unit {0})) → List String → Action W (Unit {0})
  fulfill_all fulfill [] = pure tt
  fulfill_all fulfill (url ∷ rest) = fulfill url >> fulfill_all fulfill rest

  -- The certificate from the chain of an order and its key.
  to_certificate : String → String → List ℕ → List (List ℕ) → Action W (Option Certificate)
  unfolding encode_der_chain first
  to_certificate name domain cert_key der_chain = do
    pems ← lift (encode_der_chain k der_chain)
    key_der ← wrapping "marshal private key" (lift (k.marshal_private_key cert_key))
    der ← lift (first der_chain)
    leaf ← wrapping "parse leaf certificate" (lift (k.parse_certificate der))
    pure (
        some (record {
          host = domain;
          cert_pem = pems.0;
          key_pem = k.encode_pem "EC PRIVATE KEY" key_der;
          ca_cert_pem = pems.1;
          not_before = leaf.not_before;
          not_after = leaf.not_after;
          issuer_name = name;
        }))

  -- `Issue`, with the issuer's name, its email and its way with one authorization.
  unfoldable pub obtain :
      String
      → String
      → (String → String → Action W (Unit {0}))
      → RouteRequest
      → Action W (Option Certificate)
  unfolding register_account fulfill_all to_certificate
  obtain name email fulfill req = do
    register_account email
    order ← wrapping "authorize order" (client.authorize_order req.host)
    fulfill_all (fulfill req.host) order.authz_urls
    ready ← wrapping "wait order" (client.wait_order order.uri)
    cert_key ← wrapping "generate cert key" k.generate_key
    csr ← wrapping "create CSR" (k.create_certificate_request req.host cert_key)
    der_chain ← wrapping "finalize order" (client.create_order_cert ready.finalize_url csr)
    to_certificate name req.host cert_key der_chain

  revoke_block : Option (List ℕ) → Action W (Unit {0})
  revoke_block none = raise (errorf "failed to decode certificate PEM")
  revoke_block (some bytes) = client.revoke_cert bytes

  pub revoke : Certificate → Action W (Unit {0})
  unfolding revoke_block
  revoke cert = revoke_block (k.decode_pem cert.cert_pem)
