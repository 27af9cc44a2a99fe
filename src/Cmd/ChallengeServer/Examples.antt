-- ===== src/Cmd/ChallengeServer/Examples.antt =====
-- The theorem on issuing at one host, whose challenge the ACME server does not accept.
use dynamic_routes_provision.Base.{◌≡◌, refl, none, some, [], ◌∷◌, true, false}
use dynamic_routes_provision.Core.Result.{errorf, ok, pure, raise}
use dynamic_routes_provision.Core.Route.{RouteRequest}
use dynamic_routes_provision.Impl.CertAcme.{Client, Crypto}
use dynamic_routes_provision.Impl.CertAcme.Http.{issue}
use dynamic_routes_provision.Cmd.ChallengeServer.{new, handle_challenge}
use dynamic_routes_provision.Cmd.ChallengeServer.Issuing.{acme_http, issue-withdraws}

abbrev refusing : Client (Unit {0})
refusing = record {
  register = λ cs. pure tt;
  is_account_exists = λ e. false;
  authorize_order =
      λ d. pure (record { authz_urls = "authz" ∷ []; uri = "order"; finalize_url = "end" });
  get_authorization = λ u. pure (record {
    status = "pending";
    challenges =
        record { kind = "dns-01"; token = "other" }
        ∷ record { kind = "http-01"; token = "tok" }
        ∷ [];
  });
  http01_challenge_response = λ t. pure "tok.key";
  dns01_challenge_record = λ t. pure "record";
  accept = λ chal. raise (errorf "refused");
  wait_authorization = λ u. pure tt;
  wait_order = λ u. pure (record { authz_urls = []; uri = "order"; finalize_url = "end" });
  create_order_cert = λ u csr. pure ((7 ∷ []) ∷ []);
  revoke_cert = λ bytes. pure tt;
}

abbrev plain : Crypto (Unit {0})
plain = record {
  generate_key = pure (1 ∷ []);
  create_certificate_request = λ d key. pure (2 ∷ []);
  marshal_private_key = ok;
  encode_pem = λ kind bytes. bytes;
  decode_pem = some;
  parse_certificate = λ der. ok (record { not_before = 0; not_after = 90 });
}

abbrev a_example : RouteRequest
a_example = record {
  id = "";
  host = "a.example";
  path = "/";
  backends = [];
  tls = true;
  metadata = [];
  created_at = 0;
}

issue-withdraws_example :
    handle_challenge "/.well-known/acme-challenge/tok"
      (issue (acme_http (λ port. pure tt) refusing plain "") a_example (new 80, tt)).1.0
    ≡ none
unfolding handle_challenge new
issue-withdraws_example =
    issue-withdraws (λ port. pure tt) refusing plain "" a_example (new 80) tt
      "/.well-known/acme-challenge/tok" (λ port w. tt) refl
