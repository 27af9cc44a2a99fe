-- ===== src/Impl/ProvisionerNetscaler/Listing.antt =====
-- What `List` tells of the hosts, and what a cycle of core/reconciler/reconciler.go makes of it.
use dynamic_routes_provision.Base.{
  String, ◌≡◌, ◌≢◌, refl, ap, sym, ◌∙◌, false, not, List, [], ◌∷◌, map, arith, ◌==◌, eq_iff, All,
}
use dynamic_routes_provision.Core.Dict.{Dict}
use dynamic_routes_provision.Core.Result.{ok, pure}
use dynamic_routes_provision.Core.Result.Rules.{continue-eq-ok, ok-injective}
use dynamic_routes_provision.Core.Route.{RouteRequest, ProvisionedRoute}
use dynamic_routes_provision.Core.Reconciler.{diff}
use dynamic_routes_provision.Core.Reconciler.Diff.{wanted, served, missing, stale, diff-eq-filter}
use dynamic_routes_provision.Impl.ProvisionerNetscaler.{
  NetscalerProvisioner, listed_route, resources, list,
}

abbrev Unhosted : ProvisionedRoute → Type 0
Unhosted a = a.host ≡ ""

is_other : (h : String) → h ≢ "" → ("" == h) ≡ false
is_other h ne = ground (arith, eq_iff "" h, ne)

served-Unhosted :
    (h : String) (as' : List ProvisionedRoute) → All Unhosted as' → h ≢ "" → served h as' ≡ false
served-Unhosted h [] hs ne = refl
served-Unhosted h (a ∷ rest) hs ne = simp (hs.0, is_other h ne) (served-Unhosted h rest hs.1 ne)

wanted-Unhosted : (ds : List RouteRequest) → All (λ d. d.host ≢ "") ds → wanted "" ds ≡ false
wanted-Unhosted [] hs = refl
wanted-Unhosted (d ∷ rest) hs = ground (arith, eq_iff d.host "", hs.0, wanted-Unhosted rest hs.1)

missing_all :
    (as' : List ProvisionedRoute) (ds : List RouteRequest)
    → All Unhosted as'
    → All (λ d. d.host ≢ "") ds
    → missing ds as' ≡ ds
missing_all as' [] us hs = refl
missing_all as' (d ∷ rest) us hs =
    ground (arith, served-Unhosted d.host as' us hs.0, missing_all as' rest us hs.1)

stale_all :
    (ds : List RouteRequest) (as' : List ProvisionedRoute)
    → All Unhosted as'
    → All (λ d. d.host ≢ "") ds
    → stale ds as' ≡ as'
stale_all ds [] us hs = refl
stale_all ds (a ∷ rest) us hs =
    simp (ap (λ (h : String). not (wanted h ds)) us.0 ∙ ap not (wanted-Unhosted ds hs))
      (ap (λ (r : List ProvisionedRoute). a ∷ r) (stale_all ds rest us.1 hs))

module _ {W : Type 0} (p : NetscalerProvisioner W) where
  listed-Unhosted : (rs : List (Dict _)) → All Unhosted (map (listed_route p) rs)
  unfolding listed_route
  listed-Unhosted [] = tt
  listed-Unhosted (r ∷ rest) = (refl, listed-Unhosted rest)

  list-Unhosted : (w : W) (out : List ProvisionedRoute) → (list p w).0 ≡ ok out → All Unhosted out
  unfolding list
  list-Unhosted w out e =
      let (rs, got, last) =
        continue-eq-ok (resources p w).0 (λ rs. pure (map (listed_route p) rs)) (resources p w).1
          e in
      let same : map (listed_route p) rs ≡ out = ok-injective last in
      rw (sym same) (listed-Unhosted rs)

  -- Whatever the appliance holds, when its routes are read and each desired route has a host, the
  -- reconciler's `diff` adds every desired route and removes every route that was listed, also
  -- those that the appliance serves already.
  pub list-readds_all :
      (w : W) (ds : List RouteRequest) (out : List ProvisionedRoute)
      → (list p w).0 ≡ ok out
      → All (λ d. d.host ≢ "") ds
      → diff ds out ≡ (ds, map (λ a. a.route_id) out)
  list-readds_all w ds out e hs =
      let us = list-Unhosted w out e in
      diff-eq-filter ds _ ∙ λ i.
      (missing_all _ ds us hs i, map (λ a. a.route_id) (stale_all ds _ us hs i))
