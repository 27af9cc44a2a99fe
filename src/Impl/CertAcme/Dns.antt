-- ===== src/Impl/CertAcme/Dns.antt =====
-- impl/cert-acme-dns/issuer.go and provider.go: the DNS-01 challenge.
use dynamic_routes_provision.Base.{String, ◌⧺◌, ◌==◌, Option, none, some, if◌then◌else◌}
use dynamic_routes_provision.Core.Result.{
  errorf, Action, pure, raise, ◌>>=◌, ◌>>◌, wrapping, deferred,
}
use dynamic_routes_provision.Core.Route.{RouteRequest, Certificate}
use dynamic_routes_provision.Core.Interfaces.{Issuer}
use dynamic_routes_provision.Impl.CertAcme.{
  Challenge, Client, Crypto, find_challenge, obtain, revoke,
}

-- `present` takes the domain and the value of the TXT record, `cleanup` only the domain.
pub record DnsProvider (W : Type 0) : Type 0 where
  pub present : String → String → Action W (Unit {0})
  pub cleanup : String → Action W (Unit {0})

pub record AcmeDnsIssuer (W : Type 0) : Type 0 where
  pub client : Client W
  pub crypto : Crypto W
  pub provider : DnsProvider W
  pub email : String

module _ {W : Type 0} (a : AcmeDnsIssuer W) where
  -- What happens between `Present` and the deferred `Cleanup`.
  unfoldable pub validate : String → Challenge → Action W (Unit {0})
  validate authz_url chal =
      wrapping "accept challenge" (a.client.accept chal)
      >> wrapping "wait authorization" (a.client.wait_authorization authz_url)

  unfoldable pub solve : String → String → Option Challenge → Action W (Unit {0})
  unfolding validate
  solve domain authz_url none = raise (errorf ("no dns-01 challenge found for " ⧺ domain))
  solve domain authz_url (some chal) = do
    value ← wrapping "compute challenge record" (a.client.dns01_challenge_record chal.token)
    wrapping "present challenge" (a.provider.present domain value)
    deferred (a.provider.cleanup domain) (validate authz_url chal)

  unfoldable pub fulfill_authorization : String → String → Action W (Unit {0})
  unfolding solve find_challenge
  fulfill_authorization domain authz_url = do
    authz ← wrapping "get authorization" (a.client.get_authorization authz_url)
    if authz.status == "valid"
        then pure tt
        else solve domain authz_url (find_challenge "dns-01" authz.challenges)

  unfoldable pub issue : RouteRequest → Action W (Option Certificate)
  unfolding obtain fulfill_authorization
  issue = obtain a.client a.crypto "acme-dns-01" a.email fulfill_authorization

  abbrev pub acme_dns_issuer : Issuer W
  acme_dns_issuer = record {
    name = "acme-dns-01";
    issue = issue;
    revoke = revoke a.client a.crypto;
  }
