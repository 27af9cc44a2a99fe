-- ===== src/Cmd/ChallengeServer.antt =====
-- cmd/routes-provisioner/internal/certificate/challenge_server.go: the tokens of ACME HTTP-01
-- challenges and the server that shows them. `net.Listen`, which binds a port in the world `W`, is a
-- parameter; the mutex makes each access to the tokens one step.
pub mod Tokens
pub mod Issuing
mod Examples
use Prim.Native.String as Text
use dynamic_routes_provision.Base.{String, ℕ, ◌⧺◌, Bool, false, true, Option, List, [], ◌∷◌}
use dynamic_routes_provision.Core.Dict.{Dict, lookup, insert, delete}
use dynamic_routes_provision.Core.Result.{wrap, Result, ok, err, panic, Action}
use dynamic_routes_provision.Cmd.Names.{decimal}

-- `running`: the field `server` is not nil.
pub record ChallengeServer : Type 0 where
  pub port : ℕ
  pub tokens : Dict String
  pub running : Bool

pub new : ℕ → ChallengeServer
new port = record { port = port; tokens = []; running = false }

unfoldable pub listening : ℕ → Result (Unit {0}) → Result (Unit {0})
unfolding decimal
listening port (ok a) = ok a
listening port (err e) = err (wrap ("listen on port " ⧺ decimal port) e)
listening port panic = panic

-- The key authorization that is answered; none is a 404. The router passes only paths that begin
-- with the prefix.
pub handle_challenge : String → ChallengeServer → Option String
unfolding lookup
handle_challenge path s =
    lookup (Text.slice path (Text.len "/.well-known/acme-challenge/") (Text.len path)) s.tokens

unfoldable pub cleanup : String → ChallengeServer → ChallengeServer
unfolding delete
cleanup token s = record s { tokens = delete token s.tokens }

module _ {W : Type 0} (listen : ℕ → Action W (Unit {0})) where
  -- The field `server` is set before the port is bound.
  unfoldable pub start_listening : Bool → Action (ChallengeServer × W) (Unit {0})
  unfolding listening
  start_listening true x = (ok tt, x)
  start_listening false (s, w) =
      let (r, w') = listen s.port w in (listening s.port r, (record s { running = true }, w'))

  unfoldable pub ensure_running : Action (ChallengeServer × W) (Unit {0})
  unfolding start_listening
  ensure_running x = start_listening x.0.running x

  unfoldable pub present : String → String → Action (ChallengeServer × W) (Unit {0})
  unfolding insert ensure_running
  present token key_auth (s, w) =
      ensure_running (record s { tokens = insert token key_auth s.tokens }, w)
