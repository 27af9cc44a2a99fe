-- ===== src/Cmd/ChallengeServer/Tokens.antt =====
-- cmd/routes-provisioner/internal/certificate/challenge_server.go: the answers to challenges, and the
-- start of the server.
use Prim.Native.String as Text
use dynamic_routes_provision.Base.{
  String, ℕ, ◌≡◌, refl, ap, ◌∙◌, Bool, true, false, Option, none, some, List, [], ◌∷◌,
  if◌then◌else◌, ◌==◌,
}
use dynamic_routes_provision.Core.Dict.{lookup, insert, lookup-insert, lookup-delete}
use dynamic_routes_provision.Core.Result.{Error, Result, ok, err, Action}
use dynamic_routes_provision.Cmd.ChallengeServer.{
  ChallengeServer, new, listening, handle_challenge, cleanup, start_listening, ensure_running,
  present,
}

-- The calls of an ACME client.
pub data Call : Type 0 where
  presents : (token key_auth : String) → Call
  cleans : (token : String) → Call

module _ {W : Type 0} (listen : ℕ → Action W (Unit {0})) where
  pub call : Call → ChallengeServer × W → ChallengeServer × W
  call (presents token key_auth) x = (present listen token key_auth x).1
  call (cleans token) (s, w) = (cleanup token s, w)

  pub calls : List Call → ChallengeServer × W → ChallengeServer × W
  calls [] x = x
  calls (c ∷ rest) x = calls rest (call c x)

  -- The key authorization that was presented last for the token, if it was not cleaned up since.
  unfoldable pub latest : String → List Call → Option String → Option String
  latest t [] before = before
  latest t (presents token key_auth ∷ rest) before =
      latest t rest (if token == t then some key_auth else before)
  latest t (cleans token ∷ rest) before = latest t rest (if token == t then none else before)

  pub start_listening-tokens :
      (b : Bool) (s : ChallengeServer) (w : W)
      → (start_listening listen b (s, w)).1.0.tokens ≡ s.tokens
  unfolding start_listening
  start_listening-tokens true s w = refl
  start_listening-tokens false s w = refl

  calls-tokens :
      (t : String) (cs : List Call) (x : ChallengeServer × W)
      → lookup t (calls cs x).0.tokens ≡ latest t cs (lookup t x.0.tokens)
  unfolding calls latest call present ensure_running cleanup
  calls-tokens t [] x = refl
  calls-tokens t (presents token key_auth ∷ rest) (s, w) =
      calls-tokens t rest (present listen token key_auth (s, w)).1
      ∙ ap (latest t rest) (
          ap (lookup t) (
            start_listening-tokens s.running (record s { tokens = insert token key_auth s.tokens })
              w)
          ∙ lookup-insert token t key_auth s.tokens)
  calls-tokens t (cleans token ∷ rest) (s, w) =
      calls-tokens t rest (cleanup token s, w) ∙ ap (latest t rest) (lookup-delete token t s.tokens)

  -- After any calls to a new server, the answer to a challenge's path is the key authorization that
  -- was presented last for its token, and none when none was or when it was cleaned up since.
  pub handle_challenge-latest :
      (cs : List Call) (port : ℕ) (w : W) (path : String)
      → handle_challenge path (calls cs (new port, w)).0
        ≡ latest (Text.slice path (Text.len "/.well-known/acme-challenge/") (Text.len path)) cs none
  unfolding handle_challenge new lookup
  handle_challenge-latest cs port w path =
      calls-tokens (Text.slice path (Text.len "/.well-known/acme-challenge/") (Text.len path)) cs
        (new port, w)

  -- Once the field `server` is set, `Present` only keeps the token.
  present-running :
      (token key_auth : String) (s : ChallengeServer) (w : W)
      → s.running ≡ true
      → present listen token key_auth (s, w)
        ≡ (ok tt, (record s { tokens = insert token key_auth s.tokens }, w))
  unfolding present ensure_running start_listening
  present-running token key_auth s w h = simp h refl

  calls-running :
      (cs : List Call) (s : ChallengeServer) (w : W)
      → s.running ≡ true
      → ((calls cs (s, w)).0.running ≡ true) × ((calls cs (s, w)).1 ≡ w)
  unfolding calls call cleanup
  calls-running [] s w h = (h, refl)
  calls-running (presents token key_auth ∷ rest) s w h =
      let e = present-running token key_auth s w h in
      let (up, same) =
        calls-running rest (record s { tokens = insert token key_auth s.tokens }) w h in
      (
        ap (λ (x : Result (Unit {0}) × (ChallengeServer × W)). (calls rest x.1).0.running) e ∙ up,
        ap (λ (x : Result (Unit {0}) × (ChallengeServer × W)). (calls rest x.1).1) e ∙ same,
      )
  calls-running (cleans token ∷ rest) s w h = calls-running rest (cleanup token s) w h

  -- When the port cannot be bound, the first `Present` of a new server reports it, but each later
  -- one, after whatever calls came between, returns no error; and none of them tries again to bind
  -- the port, though nothing listens.
  pub present-unserved :
      (port : ℕ) (token key_auth token' key_auth' : String) (cs : List Call) (w w' : W) (e : Error)
      → listen port w ≡ (err e, w')
      → let x = (present listen token key_auth (new port, w)).1 in
        ((present listen token key_auth (new port, w)).0 ≡ listening port (err e))
        × ((present listen token' key_auth' (calls cs x)).0 ≡ ok tt)
        × ((present listen token' key_auth' (calls cs x)).1.1 ≡ w')
  present-unserved port token key_auth token' key_auth' cs w w' e fails =
      let s = record (new port) { tokens = insert token key_auth []; running = true } in
      let (up, same) = calls-running cs s w' refl in
      let first : present listen token key_auth (new port, w) ≡ (listening port (err e), (s, w')) =
        unfold present ensure_running start_listening new in
        (λ i. (listening port (fails i).0, (s, (fails i).1))) in
      let later = present-running token' key_auth' (calls cs (s, w')).0 (calls cs (s, w')).1 up in
      (
        ap (λ (x : Result (Unit {0}) × (ChallengeServer × W)). x.0) first,
        ap
              (λ (x : Result (Unit {0}) × (ChallengeServer × W)).
                (present listen token' key_auth' (calls cs x.1)).0)
              first
            ∙ ap (λ (x : Result (Unit {0}) × (ChallengeServer × W)). x.0) later,
        ap
              (λ (x : Result (Unit {0}) × (ChallengeServer × W)).
                (present listen token' key_auth' (calls cs x.1)).1.1)
              first
            ∙ ap (λ (x : Result (Unit {0}) × (ChallengeServer × W)). x.1.1) later
            ∙ same,
      )
