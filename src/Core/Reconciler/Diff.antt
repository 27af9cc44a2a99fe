-- ===== src/Core/Reconciler/Diff.antt =====
-- `diff` against its description by filters.
use dynamic_routes_provision.Base.{
  String, ◌≡◌, refl, ap, ◌∙◌, Bool, not, ◌||◌, List, [], ◌∷◌, ◌++◌, map, arith, ◌==◌, if◌then◌else◌,
  any, filter, Bool-cases, inl, inr,
}
use mathlib.Core.Path.{fun_ext}
use mathlib.Core.List.{append_assoc, append-nil}
use dynamic_routes_provision.Core.Dict.{Dict, insert, has, has-insert}
use dynamic_routes_provision.Core.Route.{RouteRequest, ProvisionedRoute}
use dynamic_routes_provision.Core.Reconciler.{index_actual, scan_desired, scan_actual, diff}

-- Some route of the list has the host.
abbrev pub wanted : String → List RouteRequest → Bool
wanted h = any (λ d. d.host == h)

abbrev pub served : String → List ProvisionedRoute → Bool
served h = any (λ a. a.host == h)

has-index_actual :
    (h : String) (actual : List ProvisionedRoute) (m : Dict ProvisionedRoute)
    → has h (index_actual actual m) ≡ (served h actual || has h m)
unfolding index_actual
has-index_actual h [] m = refl
has-index_actual h (a ∷ rest) m =
    ground (arith, has-index_actual h rest (insert a.host a m), has-insert a.host h a m)

scan_desired-hosts :
    (by_host : Dict ProvisionedRoute) (h : String) (ds : List RouteRequest)
    (hosts : Dict (Unit {0})) (acc : List RouteRequest)
    → has h (scan_desired by_host ds hosts acc).0 ≡ (wanted h ds || has h hosts)
unfolding scan_desired
scan_desired-hosts by_host h [] hosts acc = refl
scan_desired-hosts by_host h (d ∷ rest) hosts acc = ground (
  arith,
  scan_desired-hosts by_host h rest (insert d.host tt hosts)
      (if has d.host by_host then acc else acc ++ d ∷ []),
  has-insert d.host h tt hosts,
)

scan_desired-add :
    (by_host : Dict ProvisionedRoute) (ds : List RouteRequest) (hosts : Dict (Unit {0}))
    (acc : List RouteRequest)
    → (scan_desired by_host ds hosts acc).1 ≡ acc ++ filter (λ d. not (has d.host by_host)) ds
unfolding scan_desired
scan_desired-add by_host [] hosts acc = rw append-nil
scan_desired-add by_host (d ∷ rest) hosts acc = ground (
  arith,
  scan_desired-add by_host rest (insert d.host tt hosts)
      (if has d.host by_host then acc else acc ++ d ∷ []),
  append_assoc acc (d ∷ []) (filter (λ d'. not (has d'.host by_host)) rest),
)

scan_actual-remove :
    (hosts : Dict (Unit {0})) (actual : List ProvisionedRoute) (acc : List String)
    → scan_actual hosts actual acc
      ≡ acc ++ map (λ a. a.route_id) (filter (λ a. not (has a.host hosts)) actual)
unfolding scan_actual
scan_actual-remove hosts [] acc = rw append-nil
scan_actual-remove hosts (a ∷ rest) acc = elim (Bool-cases (has a.host hosts)) [
  | inl old ↦ rw old (scan_actual-remove hosts rest acc)
  | inr new ↦ rw new (
      scan_actual-remove hosts rest (acc ++ a.route_id ∷ [])
      ∙ append_assoc acc (a.route_id ∷ [])
          (map (λ a'. a'.route_id) (filter (λ a'. not (has a'.host hosts)) rest)))
]

abbrev pub missing : List RouteRequest → List ProvisionedRoute → List RouteRequest
missing desired actual = filter (λ d. not (served d.host actual)) desired

abbrev pub stale : List RouteRequest → List ProvisionedRoute → List ProvisionedRoute
stale desired actual = filter (λ a. not (wanted a.host desired)) actual

has-actual :
    (actual : List ProvisionedRoute) (h : String) → has h (index_actual actual []) ≡ served h actual
unfolding has
has-actual actual h = ground (arith, has-index_actual h actual [])

has-desired :
    (by_host : Dict ProvisionedRoute) (ds : List RouteRequest) (h : String)
    → has h (scan_desired by_host ds [] []).0 ≡ wanted h ds
unfolding has
has-desired by_host ds h = ground (arith, scan_desired-hosts by_host h ds [] [])

-- `diff` returns the desired routes whose host no actual route has, in order and with repetitions,
-- and the identifiers of the actual routes whose host no desired route has.
pub diff-eq-filter :
    (desired : List RouteRequest) (actual : List ProvisionedRoute)
    → diff desired actual ≡ (missing desired actual, map (λ a. a.route_id) (stale desired actual))
unfolding diff
diff-eq-filter desired actual = λ i. (
  (scan_desired-add (index_actual actual []) desired [] []
        ∙ ap (λ (f : String → Bool). filter (λ d. not (f d.host)) desired)
            (fun_ext (has-actual actual)))
      i,
  (scan_actual-remove (scan_desired (index_actual actual []) desired [] []).0 actual []
        ∙ ap (λ (f : String → Bool). map (λ a. a.route_id) (filter (λ a. not (f a.host)) actual))
            (fun_ext (has-desired (index_actual actual []) desired)))
      i,
)
