-- ===== src/Core/Reconciler.antt =====
-- core/reconciler/reconciler.go: `diff` and `Reconcile`. Logging is left out, but for the fields of
-- the certificate that it reads: a nil certificate panics there.
pub mod Diff
pub mod Failures
pub mod Contract
mod Stale
pub mod Converge
pub mod Examples
use dynamic_routes_provision.Base.{
  String, Bool, true, false, Option, none, some, List, [], ◌∷◌, ◌++◌, if◌then◌else◌,
}
use dynamic_routes_provision.Core.Dict.{Dict, insert, has}
use dynamic_routes_provision.Core.Result.{Action, pure, crash, try_catch, ◌>>=◌, ◌>>◌}
use dynamic_routes_provision.Core.Route.{RouteRequest, Certificate, ProvisionedRoute}
use dynamic_routes_provision.Core.Interfaces.{Issuer, RouteProvisioner, DesiredStateProvider, Certs}

-- The loop that fills `actualByHost`.
index_actual : List ProvisionedRoute → Dict ProvisionedRoute → Dict ProvisionedRoute
index_actual [] by_host = by_host
index_actual (a ∷ rest) by_host = index_actual rest (insert a.host a by_host)

-- The loop over the desired routes: it fills `desiredHosts` and `toAdd`.
scan_desired :
    Dict ProvisionedRoute
    → List RouteRequest
    → Dict (Unit {0})
    → List RouteRequest
    → Dict (Unit {0}) × List RouteRequest
scan_desired by_host [] hosts to_add = (hosts, to_add)
scan_desired by_host (d ∷ rest) hosts to_add =
    scan_desired by_host rest (insert d.host tt hosts)
      (if has d.host by_host then to_add else to_add ++ d ∷ [])

-- The loop over the actual routes: it fills `toRemove`.
scan_actual : Dict (Unit {0}) → List ProvisionedRoute → List String → List String
scan_actual hosts [] to_remove = to_remove
scan_actual hosts (a ∷ rest) to_remove =
    scan_actual hosts rest (if has a.host hosts then to_remove else to_remove ++ a.route_id ∷ [])

pub diff : List RouteRequest → List ProvisionedRoute → List RouteRequest × List String
unfolding index_actual scan_desired scan_actual
diff desired actual =
    let (hosts, to_add) = scan_desired (index_actual actual []) desired [] [] in
    (to_add, scan_actual hosts actual [])

pub record Reconciler (W : Type 0) : Type 0 where
  pub desired : DesiredStateProvider W
  pub issuer : Issuer W
  pub provisioner : RouteProvisioner W

abbrev is_empty {ℓ} : {A : Type ℓ} → List A → Bool
is_empty [] = true
is_empty (x ∷ xs) = false

module _ {W : Type 0} where
  -- Step 4: an error is logged and dropped.
  remove_stale : RouteProvisioner W → List String → Action W (Unit {0})
  remove_stale p to_remove =
      if is_empty to_remove
      then pure tt
      else try_catch (p.batch_deprovision to_remove) (λ _. pure tt) pure

  -- `cert.IssuerName` is read before the certificate is stored.
  keep_cert : RouteRequest → Certs → Option Certificate → Action W Certs
  keep_cert route certs none = crash
  keep_cert route certs (some cert) = pure (insert route.host (some cert) certs)

  -- The body of the loop of step 5.
  issue_one : Issuer W → RouteRequest → Certs → Action W Certs
  issue_one i route certs =
      if route.tls
      then try_catch (i.issue route) (λ _. pure certs) (keep_cert route certs)
      else pure certs

  issue_all : Issuer W → List RouteRequest → Certs → Action W Certs
  unfolding issue_one keep_cert
  issue_all i [] certs = pure certs
  issue_all i (route ∷ rest) certs = issue_one i route certs >>= λ certs'. issue_all i rest certs'

  -- Step 6.
  add_missing : RouteProvisioner W → List RouteRequest → Certs → Action W (Unit {0})
  add_missing p to_add certs =
      if is_empty to_add then pure tt else (p.batch_provision to_add certs >>= λ _. pure tt)

  -- Steps 4 to 6, after the two lists have been read.
  apply_diff : Reconciler W → List RouteRequest × List String → Action W (Unit {0})
  apply_diff r (to_add, to_remove) = do
    remove_stale r.provisioner to_remove
    certs ← issue_all r.issuer to_add []
    add_missing r.provisioner to_add certs

  pub reconcile : Reconciler W → Action W (Unit {0})
  reconcile r = do
    desired_routes ← r.desired.list
    actual_routes ← r.provisioner.list
    apply_diff r (diff desired_routes actual_routes)
