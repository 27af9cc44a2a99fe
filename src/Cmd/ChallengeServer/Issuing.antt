-- ===== src/Cmd/ChallengeServer/Issuing.antt =====
-- cmd/routes-provisioner/main.go: the ACME issuer, whose solver is the challenge server.
use Prim.Native.String as Text
use dynamic_routes_provision.Base.{
  String, ℕ, ◌≡◌, ap, ◌∙◌, ◌==◌, Bool, true, false, Option, none, some, if◌then◌else◌,
}
use dynamic_routes_provision.Core.Dict.{lookup, insert, delete, lookup-insert, lookup-delete}
use dynamic_routes_provision.Core.Result.{
  Result, ok, err, panic, IsOk, Action, continue, ◌>>=◌, wrapping, wrapped, deferred,
}
use dynamic_routes_provision.Core.Result.Keeps.{
  Keeps, lift-Keeps, wrapping-Keeps, bind-Keeps, if-Keeps, deferred-restores,
}
use dynamic_routes_provision.Core.Route.{RouteRequest}
use dynamic_routes_provision.Impl.CertAcme.{Client, Crypto, Challenge, find_challenge}
use dynamic_routes_provision.Impl.CertAcme.Beside.{
  client_beside, crypto_beside, beside-Ignores, beside-Keeps,
}
use dynamic_routes_provision.Impl.CertAcme.Http.{
  ChallengeSolver, AcmeIssuer, validate, solve, fulfill_authorization, issue,
}
use dynamic_routes_provision.Impl.CertAcme.Rules.{obtain-Keeps}
use dynamic_routes_provision.Cmd.ChallengeServer.{
  ChallengeServer, handle_challenge, cleanup, start_listening, ensure_running, present, listening,
}
use dynamic_routes_provision.Cmd.ChallengeServer.Tokens.{start_listening-tokens}

module _ {W : Type 0} (listen : ℕ → Action W (Unit {0})) where
  -- `Cleanup` returns no error.
  pub challenge_solver : ChallengeSolver (ChallengeServer × W)
  unfolding present cleanup
  challenge_solver = record {
    present = λ domain token key_auth. present listen token key_auth;
    cleanup = λ domain token (s, w). (ok tt, (cleanup token s, w));
  }

  pub acme_http : Client W → Crypto W → String → AcmeIssuer (ChallengeServer × W)
  unfolding challenge_solver
  acme_http c k email = record {
    client = client_beside c;
    crypto = crypto_beside k;
    solver = challenge_solver;
    email = email;
  }

  module _ (t : String) where
    -- The token has no key authorization.
    abbrev Clear : ChallengeServer → Type 0
    Clear s = lookup t s.tokens ≡ none

    -- At most the token that was presented has one.
    abbrev Shown : String → String → ChallengeServer → Type 0
    Shown token key_auth s = lookup t s.tokens ≡ (if token == t then some key_auth else none)

    removed :
        (b : Bool) (key_auth : String) (before after : Option String)
        → before ≡ (if b then some key_auth else none)
        → after ≡ (if b then none else before)
        → after ≡ none
    removed true key_auth before after was now = now
    removed false key_auth before after was now = now ∙ was

    cleanup-Clear :
        (token key_auth : String) (s : ChallengeServer)
        → Shown token key_auth s
        → Clear (cleanup token s)
    unfolding cleanup
    cleanup-Clear token key_auth s h =
        removed (token == t) key_auth (lookup t s.tokens) (lookup t (delete token s.tokens)) h
          (lookup-delete token t s.tokens)

    insert-Shown :
        (b : Bool) (key_auth : String) (before after : Option String)
        → before ≡ none
        → after ≡ (if b then some key_auth else before)
        → after ≡ (if b then some key_auth else none)
    insert-Shown true key_auth before after was now = now
    insert-Shown false key_auth before after was now = now ∙ was

    present-Shown :
        (token key_auth : String) (x : ChallengeServer × W)
        → Clear x.0
        → Shown token key_auth (present listen token key_auth x).1.0
    unfolding present ensure_running
    present-Shown token key_auth (s, w) h =
        ap (lookup t) (
          start_listening-tokens listen s.running
            (record s { tokens = insert token key_auth s.tokens }) w)
        ∙ insert-Shown (token == t) key_auth (lookup t s.tokens)
            (lookup t (insert token key_auth s.tokens)) h (lookup-insert token t key_auth s.tokens)

    listening-IsOk : (port : ℕ) (r : Result (Unit {0})) → IsOk r → IsOk (listening port r)
    unfolding listening
    listening-IsOk port (ok a) h = tt
    listening-IsOk port (err e) h = h
    listening-IsOk port panic h = h

    start_listening-IsOk :
        (b : Bool) (s : ChallengeServer) (w : W)
        → ((port : ℕ) (w : W) → IsOk (listen port w).0)
        → IsOk (start_listening listen b (s, w)).0
    unfolding start_listening
    start_listening-IsOk true s w ready = tt
    start_listening-IsOk false s w ready =
        listening-IsOk s.port (listen s.port w).0 (ready s.port w)

    -- The deferred `Cleanup` runs after a `Present` without error.
    bracket :
        (r : Result (Unit {0})) (x : ChallengeServer × W) (domain token key_auth : String)
        (v : Action (ChallengeServer × W) (Unit {0}))
        → IsOk r
        → Shown token key_auth x.0
        → Keeps (λ (y : ChallengeServer × W). Shown token key_auth y.0) v
        → Clear
            (continue
              (wrapped "present challenge" r)
              (λ _. deferred (challenge_solver.cleanup domain token) v)
              x).1.0
    unfolding Keeps challenge_solver
    bracket (ok a) x domain token key_auth v good shown keeps =
        deferred-restores (λ (y : ChallengeServer × W). Clear y.0)
          (challenge_solver.cleanup domain token) v x
          (cleanup-Clear token key_auth (v x).1.0 (keeps x shown))
    bracket (err e) x domain token key_auth v good shown keeps = absurd good
    bracket panic x domain token key_auth v good shown keeps = absurd good

    module _ (c : Client W) (k : Crypto W) (email : String)
        (ready : (port : ℕ) (w : W) → IsOk (listen port w).0) where
      validate-Keeps :
          (P : ChallengeServer → Type 0) (url : String) (chal : Challenge)
          → Keeps (λ (x : ChallengeServer × W). P x.0) (validate (acme_http c k email) url chal)
      unfolding validate acme_http
      validate-Keeps P url chal =
          bind-Keeps (λ (x : ChallengeServer × W). P x.0) _ _
            (wrapping-Keeps (λ (x : ChallengeServer × W). P x.0) "accept challenge" _
              (beside-Keeps P (c.accept chal)))
            λ _.
              wrapping-Keeps (λ (x : ChallengeServer × W). P x.0) "wait authorization" _
                (beside-Keeps P (c.wait_authorization url))

      show-Keeps :
          (domain url key_auth : String) (chal : Challenge)
          → Keeps
              (λ (x : ChallengeServer × W). Clear x.0)
              (wrapping "present challenge" (challenge_solver.present domain chal.token key_auth)
                >>= λ _.
                    deferred
                      (challenge_solver.cleanup domain chal.token)
                      (validate (acme_http c k email) url chal))
      unfolding challenge_solver present ensure_running Keeps
      show-Keeps domain url key_auth chal (s, w) h =
          bracket (present listen chal.token key_auth (s, w)).0
            (present listen chal.token key_auth (s, w)).1 domain chal.token key_auth
            (validate (acme_http c k email) url chal)
            (start_listening-IsOk s.running
              (record s { tokens = insert chal.token key_auth s.tokens }) w ready)
            (present-Shown chal.token key_auth (s, w) h)
            (validate-Keeps (Shown chal.token key_auth) url chal)

      solve-Keeps :
          (domain url : String) (found : Option Challenge)
          → Keeps
              (λ (x : ChallengeServer × W). Clear x.0)
              (solve (acme_http c k email) domain url found)
      unfolding solve acme_http
      solve-Keeps domain url none = lift-Keeps _ (err _)
      solve-Keeps domain url (some chal) =
          bind-Keeps (λ (x : ChallengeServer × W). Clear x.0) _ _
            (wrapping-Keeps (λ (x : ChallengeServer × W). Clear x.0) "compute challenge response" _
              (beside-Keeps Clear (c.http01_challenge_response chal.token)))
            λ key_auth. show-Keeps domain url key_auth chal

      fulfill_authorization-Keeps :
          (domain url : String)
          → Keeps
              (λ (x : ChallengeServer × W). Clear x.0)
              (fulfill_authorization (acme_http c k email) domain url)
      unfolding fulfill_authorization acme_http
      fulfill_authorization-Keeps domain url =
          bind-Keeps (λ (x : ChallengeServer × W). Clear x.0) _ _
            (wrapping-Keeps (λ (x : ChallengeServer × W). Clear x.0) "get authorization" _
              (beside-Keeps Clear (c.get_authorization url)))
            λ authz.
              if-Keeps _ (authz.status == "valid") _ _ (lift-Keeps _ (ok tt))
                (solve-Keeps domain url (find_challenge "http-01" authz.challenges))

  -- Where the port can be bound, a challenge path that the server does not answer is not answered
  -- after an `Issue` either, however it ends and whatever the ACME client did: each challenge that
  -- was presented for an authorization is withdrawn again.
  pub issue-withdraws :
      (c : Client W) (k : Crypto W) (email : String) (req : RouteRequest) (s : ChallengeServer)
      (w : W) (path : String)
      → ((port : ℕ) (w : W) → IsOk (listen port w).0)
      → handle_challenge path s ≡ none
      → handle_challenge path (issue (acme_http c k email) req (s, w)).1.0 ≡ none
  unfolding handle_challenge issue acme_http Keeps
  issue-withdraws c k email req s w path ready h =
      obtain-Keeps (client_beside c) (crypto_beside k)
        (beside-Ignores
          (Clear (Text.slice path (Text.len "/.well-known/acme-challenge/") (Text.len path))) c k)
        "acme-http-01" email (fulfill_authorization (acme_http c k email)) req
        (fulfill_authorization-Keeps
          (Text.slice path (Text.len "/.well-known/acme-challenge/") (Text.len path)) c k email
          ready req.host)
        (s, w) h
