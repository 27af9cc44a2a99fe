-- ===== src/Impl/CertAcme/Beside.antt =====
-- The ACME client and the crypto packages on a world of their own, which is the second part of the
-- world that an issuer acts on: the first part holds the memory of its solver.
use dynamic_routes_provision.Core.Result.{Action}
use dynamic_routes_provision.Core.Result.Keeps.{Keeps}
use dynamic_routes_provision.Impl.CertAcme.{Client, Crypto}
use dynamic_routes_provision.Impl.CertAcme.Rules.{Ignores}

module _ {S W : Type 0} where
  -- An action on the second part of a world.
  abbrev pub beside : {A : Type 0} → Action W A → Action (S × W) A
  beside m (s, w) = let (r, w') = m w in (r, (s, w'))

  abbrev pub client_beside : Client W → Client (S × W)
  client_beside c = record {
    register = λ cs. beside (c.register cs);
    is_account_exists = c.is_account_exists;
    authorize_order = λ d. beside (c.authorize_order d);
    get_authorization = λ u. beside (c.get_authorization u);
    http01_challenge_response = λ t. beside (c.http01_challenge_response t);
    dns01_challenge_record = λ t. beside (c.dns01_challenge_record t);
    accept = λ chal. beside (c.accept chal);
    wait_authorization = λ u. beside (c.wait_authorization u);
    wait_order = λ u. beside (c.wait_order u);
    create_order_cert = λ u csr. beside (c.create_order_cert u csr);
    revoke_cert = λ bytes. beside (c.revoke_cert bytes);
  }

  abbrev pub crypto_beside : Crypto W → Crypto (S × W)
  crypto_beside k = record {
    generate_key = beside k.generate_key;
    create_certificate_request = λ d key. beside (k.create_certificate_request d key);
    marshal_private_key = k.marshal_private_key;
    encode_pem = k.encode_pem;
    decode_pem = k.decode_pem;
    parse_certificate = k.parse_certificate;
  }

  pub beside-Ignores :
      (P : S → Type 0) (c : Client W) (k : Crypto W)
      → Ignores (λ (x : S × W). P x.0) (client_beside c) (crypto_beside k)
  unfolding Keeps
  beside-Ignores P c k = record {
    register = λ cs x h. h;
    authorize_order = λ d x h. h;
    wait_order = λ u x h. h;
    create_order_cert = λ u csr x h. h;
    generate_key = λ x h. h;
    create_certificate_request = λ d key x h. h;
  }

  pub beside-Keeps :
      (P : S → Type 0) {A : Type 0} (m : Action W A) → Keeps (λ (x : S × W). P x.0) (beside m)
  unfolding Keeps
  beside-Keeps P m x h = h
