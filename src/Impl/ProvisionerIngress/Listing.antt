-- ===== src/Impl/ProvisionerIngress/Listing.antt =====
-- `List` of impl/provisioner-ingress/provisioner.go.
use dynamic_routes_provision.Base.{
  String, ◌⧺◌, ◌≡◌, refl, ◌||◌, List, [], ◌∷◌, ◌++◌, map, arith, ◌==◌, any, if◌then◌else◌,
}
use dynamic_routes_provision.Core.Dict.{Dict, insert, has, has-insert}
use dynamic_routes_provision.Core.Result.{Action, pure, ◌>>=◌}
use dynamic_routes_provision.Core.Route.{ProvisionedRoute}
use dynamic_routes_provision.Impl.ProvisionerIngress.Types.{
  IngressRule, IngressTls, Ingress, IngressProvisioner,
}
use dynamic_routes_provision.Impl.ProvisionerIngress.Patches.{list_managed_ingresses}

add_hosts : List String → Dict (Unit {0}) → Dict (Unit {0})
add_hosts [] hosts = hosts
add_hosts (h ∷ rest) hosts = add_hosts rest (insert h tt hosts)

collect : List IngressTls → Dict (Unit {0}) → Dict (Unit {0})
unfolding add_hosts
collect [] hosts = hosts
collect (tls ∷ rest) hosts = collect rest (add_hosts tls.hosts hosts)

unfoldable pub collect_tls_hosts : Ingress → Dict (Unit {0})
unfolding collect
collect_tls_hosts ing = collect ing.tls []

module _ {W : Type 0} (p : IngressProvisioner W) where
  -- The inner loop: one route for each rule.
  unfoldable pub route_of : Ingress → Dict (Unit {0}) → IngressRule → ProvisionedRoute
  route_of ing tls_hosts rule = record {
    route_id = p.mapper.extract_route_id rule;
    host = rule.host;
    gateway_id = p.namespace ⧺ "/" ⧺ ing.name;
    certificate_id = if has rule.host tls_hosts then rule.host else "";
    status = "active";
    provider_name = "ingress-k8s";
  }

  unfoldable pub routes_of : List Ingress → List ProvisionedRoute
  unfolding route_of
  routes_of [] = []
  routes_of (ing ∷ rest) =
      let tls_hosts = collect_tls_hosts ing in
      map (route_of ing tls_hosts) ing.rules ++ routes_of rest

  unfoldable pub list : Action W (List ProvisionedRoute)
  list = do ingresses ← list_managed_ingresses p; pure (routes_of ingresses)

add_hosts-lem :
    (h : String) (l : List String) (m : Dict (Unit {0}))
    → has h (add_hosts l m) ≡ (any (λ x. x == h) l || has h m)
unfolding add_hosts
add_hosts-lem h [] m = refl
add_hosts-lem h (x ∷ rest) m =
    ground (arith, add_hosts-lem h rest (insert x tt m), has-insert x h tt m)

collect-lem :
    (h : String) (l : List IngressTls) (m : Dict (Unit {0}))
    → has h (collect l m) ≡ (any (λ t. any (λ x. x == h) t.hosts) l || has h m)
unfolding collect
collect-lem h [] m = refl
collect-lem h (t ∷ rest) m =
    ground (arith, collect-lem h rest (add_hosts t.hosts m), add_hosts-lem h t.hosts m)

-- A host is collected exactly when some TLS entry of the Ingress names it.
pub has-collect_tls_hosts :
    (h : String) (ing : Ingress)
    → has h (collect_tls_hosts ing) ≡ any (λ t. any (λ x. x == h) t.hosts) ing.tls
unfolding collect_tls_hosts has
has-collect_tls_hosts h ing = ground (arith, collect-lem h ing.tls [])
