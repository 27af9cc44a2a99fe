-- ===== src/Cmd/IngressMapper/Identity.antt =====
-- cmd/routes-provisioner/internal/provisioner/ingress_mapper.go: the identifiers of routes, of a
-- request and of its rule.
use mathlib.Core.Path.{subst}
use text.Mathlib.Text.{starts_with}
use text.Mathlib.TextPositions.{starts_with-append}
use dynamic_routes_provision.Base.{
  String, ◌⧺◌, ◌≡◌, refl, sym, ap, ◌∙◌, Bool, false, List, [], ◌∷◌, All, filter, not, true, arith,
  ◌==◌, eq_iff, any, Bool-cases, inl, inr,
}
use dynamic_routes_provision.Core.Result.{ok}
use dynamic_routes_provision.Core.Route.{RouteRequest, Backend}
use dynamic_routes_provision.Cmd.Names.{dashed}
use dynamic_routes_provision.Impl.ProvisionerIngress.Types.{
  IngressRule, Ingress, IngressProvisioner,
}
use dynamic_routes_provision.Impl.ProvisionerIngress.Patches.{list_managed_ingresses}
use dynamic_routes_provision.Impl.ProvisionerIngress.Single.{deprovision}
use dynamic_routes_provision.Impl.ProvisionerIngress.Single.Search.{holds, deprovision-unknown}
use dynamic_routes_provision.Impl.ProvisionerIngress.Removal.{batch_deprovision}
use dynamic_routes_provision.Impl.ProvisionerIngress.Removal.Lists.{Distinct, rules_in}
use dynamic_routes_provision.Impl.ProvisionerIngress.Removal.Contract.{IsStore, Patchable}
use dynamic_routes_provision.Impl.ProvisionerIngress.Removal.Store.{
  unwanted, batch_deprovision-rules,
}
use dynamic_routes_provision.Cmd.IngressMapper.{
  IngressMapper, route_id, extract_route_id, first_backend, map_rule, to_ingress_mapper,
}

first_backend-host :
    (req : RouteRequest) (bs : List Backend) {rule : IngressRule}
    → first_backend req bs ≡ ok rule
    → rule.host ≡ req.host
unfolding first_backend
first_backend-host req [] h = cc
first_backend-host req (b ∷ rest) h = ground arith

-- The identifier that `List` and `Deprovision` read back from the rule of a request is the
-- identifier of the request.
pub extract_route_id-map_rule :
    (req : RouteRequest) (rule : IngressRule)
    → map_rule req ≡ ok rule
    → extract_route_id rule ≡ route_id req
unfolding map_rule route_id extract_route_id
extract_route_id-map_rule req rule h =
    ap (λ (s : String). "routes-" ⧺ dashed s) (first_backend-host req req.backends h)

colliding :
    (req : RouteRequest) (rule : IngressRule)
    → dashed rule.host ≡ dashed req.host
    → extract_route_id rule ≡ route_id req
unfolding extract_route_id route_id
colliding req rule h = ap (λ (s : String). "routes-" ⧺ s) h

none_left :
    (host : String) (drop : IngressRule → Bool) (l : List IngressRule)
    → ((rule : IngressRule) → rule.host ≡ host → drop rule ≡ true)
    → any (λ rule. rule.host == host) (filter (λ rule. not (drop rule)) l) ≡ false
none_left host drop [] h = refl
none_left host drop (rule ∷ l) h =
    ground (arith, none_left host drop l h, h rule, eq_iff rule.host host)

-- With the application's mapper: where the API server keeps its contract, Ingress names are unique,
-- and each Ingress that keeps some rules and loses others has TLS entries, the removal of a route by
-- its identifier succeeds and removes also each rule of every host that is the route's host but for
-- dots and dashes, since the identifiers are the same.
pub route_id-collides :
    {W : Type 0} (p : IngressProvisioner W) (k : IsStore p) (m : IngressMapper) (req : RouteRequest)
    (host : String) (w : W)
    → p.mapper ≡ to_ingress_mapper m
    → dashed host ≡ dashed req.host
    → Distinct (k.store w)
    → All (Patchable p.mapper (route_id req ∷ [])) (k.store w)
    → ((batch_deprovision p (route_id req ∷ []) w).0 ≡ ok tt)
      × (any
            (λ rule. rule.host == host)
            (rules_in (k.store (batch_deprovision p (route_id req ∷ []) w).1))
          ≡ false)
unfolding to_ingress_mapper extract_route_id route_id
route_id-collides p k m req host w own same distinct able =
    let (done, left) = batch_deprovision-rules p k (route_id req ∷ []) w distinct able in
    (
      done,
      ap (any (λ rule. rule.host == host)) left
          ∙ none_left host (unwanted p k (route_id req ∷ [])) (rules_in (k.store w)) goes,
    )
  where
    goes : (rule : IngressRule) → rule.host ≡ host → unwanted p k (route_id req ∷ []) rule ≡ true
    goes rule here =
        let found : p.mapper.extract_route_id rule ≡ route_id req =
          ap (λ mapper. mapper.extract_route_id rule) own
          ∙ colliding req rule (ap dashed here ∙ same) in
        ground (arith, eq_iff (p.mapper.extract_route_id rule) (route_id req), found)

extract_route_id-prefix :
    (rule : IngressRule) (id : String)
    → starts_with id "routes-" ≡ false
    → (extract_route_id rule == id) ≡ false
unfolding extract_route_id
extract_route_id-prefix rule id h = elim (Bool-cases (extract_route_id rule == id)) [
  | inr other ↦ other
  | inl same ↦ cc (
    starts_with-append "routes-" (dashed rule.host),
    ap (λ (t : String). starts_with t "routes-") ((eq_iff (extract_route_id rule) id).0 same),
  )
]

any-false {ℓ} :
    {A : Type ℓ} (p : A → Bool) → ((x : A) → p x ≡ false) → (l : List A) → any p l ≡ false
any-false p h [] = refl
any-false p h (x ∷ l) = ground (arith, h x, any-false p h l)

-- With the application's mapper, removing a route by an identifier without the prefix `routes-`,
-- such as that of a database document, succeeds and removes nothing: the API is only asked to list.
pub deprovision-document_id :
    {W : Type 0} (p : IngressProvisioner W) (m : IngressMapper) (id : String) (ings : List Ingress)
    (w w' : W)
    → p.mapper ≡ to_ingress_mapper m
    → starts_with id "routes-" ≡ false
    → list_managed_ingresses p w ≡ (ok ings, w')
    → deprovision p id w ≡ (ok tt, w')
deprovision-document_id p m id ings w w' own foreign listed =
    deprovision-unknown p id ings w w' listed
      (subst (λ mapper. holds mapper id ings ≡ false) (sym own) none_held)
  where
    none_held : holds (to_ingress_mapper m) id ings ≡ false
    none_held =
        any-false (λ i. any (λ r. (to_ingress_mapper m).extract_route_id r == id) i.rules)
          (λ i.
            any-false (λ r. (to_ingress_mapper m).extract_route_id r == id)
              (λ r. unfold to_ingress_mapper in extract_route_id-prefix r id foreign) i.rules)
          ings
