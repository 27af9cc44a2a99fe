-- ===== src/Impl/CertAcme/Http.antt =====
-- impl/cert-acme-http/issuer.go and solver.go: the HTTP-01 challenge.
use dynamic_routes_provision.Base.{String, ◌⧺◌, ◌==◌, Option, none, some, if◌then◌else◌}
use dynamic_routes_provision.Core.Result.{
  errorf, Action, pure, raise, ◌>>=◌, ◌>>◌, wrapping, deferred,
}
use dynamic_routes_provision.Core.Route.{RouteRequest, Certificate}
use dynamic_routes_provision.Core.Interfaces.{Issuer}
use dynamic_routes_provision.Impl.CertAcme.{
  Challenge, Client, Crypto, find_challenge, obtain, revoke,
}

pub record ChallengeSolver (W : Type 0) : Type 0 where
  pub present : String → String → String → Action W (Unit {0})
  pub cleanup : String → String → Action W (Unit {0})

pub record AcmeIssuer (W : Type 0) : Type 0 where
  pub client : Client W
  pub crypto : Crypto W
  pub solver : ChallengeSolver W
  pub email : String

module _ {W : Type 0} (a : AcmeIssuer W) where
  -- What happens between `Present` and the deferred `Cleanup`.
  unfoldable pub validate : String → Challenge → Action W (Unit {0})
  validate authz_url chal =
      wrapping "accept challenge" (a.client.accept chal)
      >> wrapping "wait authorization" (a.client.wait_authorization authz_url)

  unfoldable pub solve : String → String → Option Challenge → Action W (Unit {0})
  unfolding validate
  solve domain authz_url none = raise (errorf ("no http-01 challenge found for " ⧺ domain))
  solve domain authz_url (some chal) = do
    key_auth ← wrapping "compute challenge response" (a.client.http01_challenge_response chal.token)
    wrapping "present challenge" (a.solver.present domain chal.token key_auth)
    deferred (a.solver.cleanup domain chal.token) (validate authz_url chal)

  unfoldable pub fulfill_authorization : String → String → Action W (Unit {0})
  unfolding solve find_challenge
  fulfill_authorization domain authz_url = do
    authz ← wrapping "get authorization" (a.client.get_authorization authz_url)
    if authz.status == "valid"
        then pure tt
        else solve domain authz_url (find_challenge "http-01" authz.challenges)

  unfoldable pub issue : RouteRequest → Action W (Option Certificate)
  unfolding obtain fulfill_authorization
  issue = obtain a.client a.crypto "acme-http-01" a.email fulfill_authorization

  abbrev pub acme_issuer : Issuer W
  acme_issuer = record { name = "acme-http-01"; issue = issue; revoke = revoke a.client a.crypto }
