-- ===== src/Impl/LeaseKube.antt =====
-- impl/lease-kube/elector.go: leader election by the Lease API of Kubernetes. The library client-go,
-- which holds the lease, is a parameter: it is given a configuration, and calls back.
use dynamic_routes_provision.Base.{
  String, ◌≡◌, refl, Bool, true, false, List, [], ◌∷◌, if◌then◌else◌,
}

-- `D` is `time.Duration`.
pub record KubeLeaderElector (D : Type 0) : Type 0 where
  pub namespace : String
  pub lease_name : String
  pub identity : String
  pub lease_duration : D
  pub renew_deadline : D
  pub retry_period : D

-- `leaderelection.LeaderElectionConfig` with its lock, but for the callbacks.
pub record ElectionConfig (D : Type 0) : Type 0 where
  pub lock_namespace : String
  pub lock_name : String
  pub lock_identity : String
  pub lease_duration : D
  pub renew_deadline : D
  pub retry_period : D
  pub release_on_cancel : Bool

pub election_config : {D : Type 0} → KubeLeaderElector D → ElectionConfig D
election_config e = record {
  lock_namespace = e.namespace;
  lock_name = e.lease_name;
  lock_identity = e.identity;
  lease_duration = e.lease_duration;
  renew_deadline = e.renew_deadline;
  retry_period = e.retry_period;
  release_on_cancel = true;
}

-- What client-go calls.
pub data Callback : Type 0 where
  started_leading stopped_leading : Callback

-- The flag of `IsLeader`, and the callbacks that were passed on, the last one first.
pub record Elected : Type 0 where
  pub leading : Bool
  pub passed_on : List Callback

-- The flag is set before the callback is passed on; `OnStoppedLeading` may be nil.
pub call_back : Bool → Callback → Elected → Elected
call_back has_stopped started_leading s = record {
  leading = true;
  passed_on = started_leading ∷ s.passed_on;
}
call_back has_stopped stopped_leading s = record {
  leading = false;
  passed_on = if has_stopped then stopped_leading ∷ s.passed_on else s.passed_on;
}

pub run : Bool → List Callback → Elected → Elected
unfolding call_back
run has_stopped [] s = s
run has_stopped (c ∷ cs) s = run has_stopped cs (call_back has_stopped c s)

-- The last callback was `OnStartedLeading`; before any, what the flag was.
pub last_started : List Callback → Bool → Bool
last_started [] before = before
last_started (started_leading ∷ cs) before = last_started cs true
last_started (stopped_leading ∷ cs) before = last_started cs false

-- `IsLeader` is true just when the last callback was `OnStartedLeading`.
pub run-leading :
    (has_stopped : Bool) (cs : List Callback) (s : Elected)
    → (run has_stopped cs s).leading ≡ last_started cs s.leading
unfolding run call_back last_started
run-leading has_stopped [] s = refl
run-leading has_stopped (started_leading ∷ cs) s =
    run-leading has_stopped cs (call_back has_stopped started_leading s)
run-leading has_stopped (stopped_leading ∷ cs) s =
    run-leading has_stopped cs (call_back has_stopped stopped_leading s)
