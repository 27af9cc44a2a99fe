-- ===== src/Impl/ProvisionerIngress/Single.antt =====
-- `Provision` and `Deprovision` of impl/provisioner-ingress/provisioner.go.
pub mod Search
use dynamic_routes_provision.Base.{
  String, ℕ, zero, suc, Bool, true, false, Option, none, some, List, [], ◌∷◌, ◌==◌, eqb, ltb,
  if◌then◌else◌, length,
}
use dynamic_routes_provision.Core.Result.{
  Result, ok, Action, pure, lift, ◌>>=◌, ◌>>◌, wrapped, wrapping,
}
use dynamic_routes_provision.Core.Route.{RouteRequest, Certificate, ProvisionedRoute}
use dynamic_routes_provision.Impl.ProvisionerIngress.Types.{
  IngressRule, IngressTls, Ingress, IngressMapper, IngressProvisioner,
}
use dynamic_routes_provision.Impl.ProvisionerIngress.Patches.{
  add_rule_patches, remove_rule_patches, update_rule_patches, list_managed_ingresses,
  apply_json_patch, delete_ingress, create_ingress_with_rules, build_provisioned_route,
}

-- Where a rule stands: its Ingress, its index and itself.
pub record Place : Type 0 where
  pub ingress : Ingress
  pub index : ℕ
  pub rule : IngressRule

module _ (mapper : IngressMapper) (route_id : String) where
  -- The inner loop of the search.
  unfoldable pub find_rule : Ingress → ℕ → List IngressRule → Option Place
  find_rule ing i [] = none
  find_rule ing i (rule ∷ rest) =
      let later = find_rule ing (suc i) rest in
      if mapper.extract_route_id rule == route_id
      then some (record { ingress = ing; index = i; rule = rule })
      else later

  -- The outer loop: the first rule of the first Ingress that has the identifier.
  unfoldable pub find_place : List Ingress → Option Place
  unfolding find_rule
  find_place [] = none
  find_place (ing ∷ rest) =
      let later = find_place rest in
      elim (find_rule ing 0 ing.rules) [ some place ↦ some place | none ↦ later ]

unfoldable pub find_with_capacity : ℕ → List Ingress → Option Ingress
find_with_capacity max [] = none
find_with_capacity max (ing ∷ rest) =
    let later = find_with_capacity max rest in
    if ltb (length ing.rules) max then some ing else later

unfoldable pub tls_list : Option IngressTls → List IngressTls
tls_list none = []
tls_list (some tls) = tls ∷ []

module _ {W : Type 0} (p : IngressProvisioner W) where
  -- `tlsEntry`: nil for a route without TLS
  unfoldable pub tls_entry : String → RouteRequest → Result (Option IngressTls)
  tls_entry context req = if req.tls then wrapped context (p.mapper.map_tls req) else ok none

  -- `updateRule`
  update_rule : Place → IngressRule → Option IngressTls → RouteRequest → Action W ProvisionedRoute
  update_rule place rule tls req = do
    wrapping "patch update rule" (
        apply_json_patch p place.ingress.name
          (update_rule_patches place.ingress place.index place.rule.host rule tls))
    pure (build_provisioned_route p (p.mapper.route_id req) req.host place.ingress.name none)

  -- The name of the Ingress that takes a new rule: one with room, or a new one.
  place_rule : List Ingress → Option Ingress → IngressRule → Option IngressTls → Action W String
  unfolding tls_list
  place_rule ingresses (some existing) rule tls = do
    wrapping "patch add rule" (apply_json_patch p existing.name (add_rule_patches rule tls))
    pure existing.name
  place_rule ingresses none rule tls = do
    created ← create_ingress_with_rules p (length ingresses) (rule ∷ []) (tls_list tls)
    pure created.name

  provision_at :
      Option Place
      → List Ingress
      → IngressRule
      → Option IngressTls
      → RouteRequest
      → Option Certificate
      → Action W ProvisionedRoute
  provision_at (some place) ingresses rule tls req cert = update_rule place rule tls req
  provision_at none ingresses rule tls req cert = do
    ingress_name ←
        place_rule ingresses (find_with_capacity p.max_routes_per_ingress ingresses) rule tls
    pure (build_provisioned_route p (p.mapper.route_id req) req.host ingress_name cert)

  pub provision : RouteRequest → Option Certificate → Action W ProvisionedRoute
  provision req cert = do
    rule ← lift (wrapped "map rule" (p.mapper.map_rule req))
    tls ← lift (tls_entry "map tls" req)
    ingresses ← list_managed_ingresses p
    provision_at (find_place p.mapper (p.mapper.route_id req) ingresses) ingresses rule tls req cert

  -- The last rule goes with its Ingress.
  deprovision_at : Option Place → Action W (Unit {0})
  deprovision_at none = pure tt
  deprovision_at (some place) =
      if eqb (length place.ingress.rules) 1
      then delete_ingress p place.ingress.name
      else wrapping "patch remove rule" (
          apply_json_patch p place.ingress.name
            (remove_rule_patches place.ingress place.index place.rule.host))

  pub deprovision : String → Action W (Unit {0})
  deprovision route_id = do
    ingresses ← list_managed_ingresses p
    deprovision_at (find_place p.mapper route_id ingresses)
