-- ===== src/Cmd/Wiring/Program.antt =====
-- cmd/routes-provisioner/main.go: `main`, from a configuration to what the orchestrator is given. An
-- exit with status 1 is an error with the text that is logged.
use dynamic_routes_provision.Base.{String}
use dynamic_routes_provision.Core.Result.{Action, pure, lift, ◌>>=◌, wrapping}
use dynamic_routes_provision.Cmd.Config.{Config}
use dynamic_routes_provision.Cmd.Config.Defaults.{Viper, load}
use dynamic_routes_provision.Cmd.Wiring.Parts.{Env, Program}
use dynamic_routes_provision.Cmd.Wiring.Sources.{sources}
use dynamic_routes_provision.Cmd.Wiring.Issuers.{issuer, clientset, store}
use dynamic_routes_provision.Cmd.Wiring.Gateways.{gateway}
use dynamic_routes_provision.Cmd.Wiring.Election.{elector}

module _ {W D : Type 0} (e : Env W D) where
  unfoldable pub wire : Config → Action W (Program D)
  unfolding sources issuer clientset store gateway elector
  wire cfg = do
    s ← sources e cfg.datasource
    i ← issuer e cfg.certificate
    client ← clientset e cfg
    st ← store e client cfg.certificate_store
    p ← gateway client st cfg.provisioner
    interval ←
        wrapping "invalid reconcile interval" (lift (e.parse_duration cfg.reconcile.interval))
    l ← elector e client s.mongo_client cfg.datasource.database cfg.leader_election
    pure (record {
      desired_state = s.desired_state;
      trigger = s.trig;
      issuing = record { issuer = i; store = st };
      gateway = p;
      reconcile_interval = interval;
      elector = l;
    })

-- The whole start: the configuration is loaded from `path`.
unfoldable pub start : {W D : Type 0} → Viper W → Env W D → String → Action W (Program D)
unfolding load wire
start v e path = wrapping "failed to load config" (load v path) >>= wire e
