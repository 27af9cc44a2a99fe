-- ===== src/Cmd/Wiring/Election.antt =====
-- cmd/routes-provisioner/main.go: the leader election.
use dynamic_routes_provision.Base.{String, ◌==◌, Bool, Option, none, some, if◌then◌else◌}
use dynamic_routes_provision.Core.Result.{Action, ok, pure, lift, ◌>>=◌, ◌>>◌, wrapping}
use dynamic_routes_provision.Cmd.Config.{LeaderElectionConfig}
use dynamic_routes_provision.Cmd.Wiring.Parts.{Env, Elector, kube_lease, mongo_lease}

module _ {W D : Type 0} (e : Env W D) where
  unfoldable pub host_name : Action W String
  host_name w = let (name, w') = e.hostname w in (ok name, w')

  -- The host's name, when no identity is configured.
  unfoldable pub identity_of : String → Action W String
  unfolding host_name
  identity_of identity = if identity == "" then host_name else pure identity

  unfoldable pub mongo_elector :
      Bool → String → LeaderElectionConfig → String → D → D → Action W (Option (Elector D))
  mongo_elector mongo_client database l identity lease_duration retry_period =
      e.mongo_database mongo_client database
      >> pure
          (some (mongo_lease database "leases" l.lease_name identity lease_duration retry_period))

  unfoldable pub kube_elector :
      Bool → LeaderElectionConfig → String → D → D → Action W (Option (Elector D))
  kube_elector client l identity lease_duration retry_period = do
    renew_deadline ←
        wrapping "invalid leader_election.renew_deadline" (lift (e.parse_duration l.renew_deadline))
    pure (
        some (
          kube_lease client l.namespace l.lease_name identity lease_duration renew_deadline
            retry_period))

  unfoldable pub enabled_elector :
      Bool → Bool → String → LeaderElectionConfig → Action W (Option (Elector D))
  unfolding identity_of mongo_elector kube_elector
  enabled_elector client mongo_client database l = do
    identity ← identity_of l.identity
    lease_duration ←
        wrapping "invalid leader_election.lease_duration" (lift (e.parse_duration l.lease_duration))
    retry_period ←
        wrapping "invalid leader_election.retry_interval" (lift (e.parse_duration l.retry_interval))
    (if l.provider == "kube"
        then kube_elector client l identity lease_duration retry_period
        else if l.provider == "mongo"
        then mongo_elector mongo_client database l identity lease_duration retry_period
        else pure none)

  unfoldable pub elector :
      Bool → Bool → String → LeaderElectionConfig → Action W (Option (Elector D))
  unfolding enabled_elector
  elector client mongo_client database l =
      if l.enabled then enabled_elector client mongo_client database l else pure none
