-- ===== src/Impl/CertAcme/Rules.antt =====
-- What the flow of `Issue` keeps.
use dynamic_routes_provision.Base.{String, ℕ, some, List, [], ◌∷◌}
use dynamic_routes_provision.Core.Result.{ok, err, lift, raise, Action}
use dynamic_routes_provision.Core.Result.Keeps.{
  Keeps, lift-Keeps, wrapping-Keeps, bind-Keeps, try_catch-Keeps, if-Keeps,
}
use dynamic_routes_provision.Core.Route.{RouteRequest}
use dynamic_routes_provision.Impl.CertAcme.{
  Client, Crypto, contacts, first, encode_der_chain, register_account, fulfill_all, to_certificate,
  obtain,
}

-- Every call of the client and of the crypto packages keeps `P`.
pub record Ignores {W : Type 0} (P : W → Type 0) (client : Client W) (k : Crypto W) : Type 0 where
  pub register : (cs : List String) → Keeps P (client.register cs)
  pub authorize_order : (d : String) → Keeps P (client.authorize_order d)
  pub wait_order : (u : String) → Keeps P (client.wait_order u)
  pub create_order_cert : (u : String) (csr : List ℕ) → Keeps P (client.create_order_cert u csr)
  pub generate_key : Keeps P k.generate_key
  pub create_certificate_request :
      (d : String) (key : List ℕ) → Keeps P (k.create_certificate_request d key)

module _ {W : Type 0} {P : W → Type 0} (client : Client W) (k : Crypto W)
    (i : Ignores P client k) where
  fulfill_all-Keeps :
      (fulfill : String → Action W (Unit {0})) (urls : List String)
      → ((url : String) → Keeps P (fulfill url))
      → Keeps P (fulfill_all client k fulfill urls)
  unfolding fulfill_all
  fulfill_all-Keeps fulfill [] kf = lift-Keeps P (ok tt)
  fulfill_all-Keeps fulfill (url ∷ urls) kf =
      bind-Keeps P _ _ (kf url) (λ _. fulfill_all-Keeps fulfill urls kf)

  to_certificate-Keeps :
      (name domain : String) (key : List ℕ) (chain : List (List ℕ))
      → Keeps P (to_certificate client k name domain key chain)
  unfolding to_certificate
  to_certificate-Keeps name domain key chain =
      bind-Keeps P _ _ (lift-Keeps P (encode_der_chain k chain)) λ pems.
        bind-Keeps P _ _
          (wrapping-Keeps P "marshal private key" (lift (k.marshal_private_key key))
            (lift-Keeps P (k.marshal_private_key key)))
          λ key_der. bind-Keeps P _ _ (lift-Keeps P (first chain)) λ der.
            bind-Keeps P _ _
              (wrapping-Keeps P "parse leaf certificate" (lift (k.parse_certificate der))
                (lift-Keeps P (k.parse_certificate der)))
              λ leaf. lift-Keeps P (ok (some _))

  -- A way with authorizations that keeps `P` makes an `Issue` that keeps it.
  pub obtain-Keeps :
      (name email : String) (fulfill : String → String → Action W (Unit {0})) (req : RouteRequest)
      → ((url : String) → Keeps P (fulfill req.host url))
      → Keeps P (obtain client k name email fulfill req)
  unfolding obtain register_account
  obtain-Keeps name email fulfill req kf =
      bind-Keeps P _ _
        (try_catch-Keeps P _ _ _ (i.register (contacts email))
          (λ e.
            if-Keeps P (client.is_account_exists e) _ _ (lift-Keeps P (ok tt))
              (wrapping-Keeps P "register account" (raise e) (lift-Keeps P (err e))))
          (λ x. lift-Keeps P (ok x)))
        λ _.
          bind-Keeps P _ _ (wrapping-Keeps P "authorize order" _ (i.authorize_order req.host))
            λ order.
              bind-Keeps P _ _ (fulfill_all-Keeps (fulfill req.host) order.authz_urls kf) λ _.
                bind-Keeps P _ _ (wrapping-Keeps P "wait order" _ (i.wait_order order.uri)) λ ready.
                  bind-Keeps P _ _ (wrapping-Keeps P "generate cert key" _ i.generate_key) λ key.
                    bind-Keeps P _ _
                      (wrapping-Keeps P "create CSR" _ (i.create_certificate_request req.host key))
                      λ csr.
                        bind-Keeps P _ _
                          (wrapping-Keeps P "finalize order" _
                            (i.create_order_cert ready.finalize_url csr))
                          λ chain. to_certificate-Keeps name req.host key chain
