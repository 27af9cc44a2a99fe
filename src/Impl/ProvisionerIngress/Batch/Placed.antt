-- ===== src/Impl/ProvisionerIngress/Batch/Placed.antt =====
-- Where `BatchProvision` of impl/provisioner-ingress/provisioner.go puts the rules of its routes.
use mathlib.Core.Option.{some-injective, some-ne-none}
use mathlib.Core.Path.{subst}
use mathlib.Core.List.{Perm, perm_append_comm, perm-append_left_iff}
use mathlib.Core.List.Perm
use dynamic_routes_provision.Base.{
  ℕ, ◌≡◌, refl, sym, ap, ◌∙◌, Option, none, some, List, [], ◌∷◌, ◌++◌, map, length, arith,
}
use dynamic_routes_provision.Core.Result.{Result, ok, pure}
use dynamic_routes_provision.Core.Result.Rules.{continue-step, ok-injective}
use dynamic_routes_provision.Core.Route.{RouteRequest, ProvisionedRoute}
use dynamic_routes_provision.Core.Interfaces.{Certs}
use dynamic_routes_provision.Impl.ProvisionerIngress.Types.{IngressProvisioner}
use dynamic_routes_provision.Impl.ProvisionerIngress.Patches.{list_managed_ingresses}
use dynamic_routes_provision.Impl.ProvisionerIngress.Batch.{
  MappedRoute, Batch, sort_by_rules, fill_existing, rules_of, map_route, map_routes, create_buckets,
  apply_batches, finish, batch_provision,
}
use dynamic_routes_provision.Impl.ProvisionerIngress.Batch.Packing.{
  routes_in, fill_existing_complete,
}
use dynamic_routes_provision.Impl.ProvisionerIngress.Batch.Buckets.{create_buckets_complete}
use dynamic_routes_provision.Impl.ProvisionerIngress.Batch.Answers.{
  answer, expected, routes_in-append, batch_provision-answers,
}
use dynamic_routes_provision.Impl.ProvisionerIngress.Batch.Places.{
  Place, IsRuleStore, places_in, patched_in, places_in-append, places_in-rules, patched_in-filled,
}
use dynamic_routes_provision.Impl.ProvisionerIngress.Batch.Steps.{
  patched_in-created, added, create_buckets-placed, gateways, apply_batches-placed,
}

module _ {W : Type 0} (p : IngressProvisioner W) (k : IsRuleStore p) where
  open k use {placed}

  map_route-rule :
      (req : RouteRequest) {m : MappedRoute}
      → map_route p req ≡ ok m
      → p.mapper.map_rule req ≡ ok m.rule
  unfolding map_route
  map_route-rule req h = ground arith

  map_routes-rules :
      (reqs : List RouteRequest) (w w' : W) (ms : List MappedRoute)
      → map_routes p reqs w ≡ (ok ms, w')
      → (map p.mapper.map_rule reqs ≡ map ok (rules_of ms)) × (w' ≡ w)
  unfolding map_routes rules_of
  map_routes-rules [] w w' ms h = (
    ap (λ (l : List MappedRoute). map ok (map (λ m. m.rule) l))
        (ok-injective (ap (λ (r : Result (List MappedRoute) × W). r.0) h)),
    sym (ap (λ (r : Result (List MappedRoute) × W). r.1) h),
  )
  map_routes-rules (req ∷ rest) w w' ms h =
      let (m, e, h₁) = continue-step (map_route p req) _ w h in
      let later = map_routes p rest w in
      let (ms', e', h₂) = continue-step later.0 (λ l. pure (m ∷ l)) later.1 h₁ in
      let (rules, same) = map_routes-rules rest w later.1 ms' (λ i. (e' i, later.1)) in
      (
        (λ i. map_route-rule req e i ∷ rules i)
            ∙ ap (λ (l : List MappedRoute). map ok (map (λ m. m.rule) l))
                (ok-injective (ap (λ (r : Result (List MappedRoute) × W). r.0) h₂)),
        sym (ap (λ (r : Result (List MappedRoute) × W). r.1) h₂) ∙ same,
      )

  finish-placed :
      (certs : Certs) (filled : List Batch) (new : Option (List Batch)) (w w' : W)
      (out : List ProvisionedRoute)
      → finish p certs filled new w ≡ (ok (some out), w')
      → (bs : List Batch) × (new ≡ some bs)
        × Perm (placed w') (placed w ++ patched_in (filled ++ bs))
        × (map (λ a. a.gateway_id) out ≡ gateways p k (places_in (filled ++ bs)))
  unfolding finish
  finish-placed certs filled none w w' out h =
      absurd (some-ne-none out (sym (ok-injective (ap (λ (r : Result _ × W). r.0) h))))
  finish-placed certs filled (some bs) w w' out h =
      let applied = apply_batches p certs (filled ++ bs) w in
      let (results, e, h₁) = continue-step applied.0 (λ l. pure (some l)) applied.1 h in
      let (put, named) =
        apply_batches-placed p k certs (filled ++ bs) w applied.1 results (λ i. (e i, applied.1)) in
      (
        bs,
        refl,
        subst (λ (x : W). Perm (placed x) (placed w ++ patched_in (filled ++ bs)))
            (ap (λ (r : Result _ × W). r.1) h₁) put,
        ap (map (λ a. a.gateway_id))
              (sym (some-injective _ _ (ok-injective (ap (λ (r : Result _ × W). r.0) h₁))))
            ∙ named,
      )

  -- Where the API server keeps its contract: when `BatchProvision` succeeds, the rules that are
  -- stored afterwards are those stored before and, once each, the rules that the mapper makes of the
  -- routes, in whatever order and in Ingresses old and new; and there is an answer for each route, in
  -- the order given, with the route's identifier and host and the Ingress that its rule is stored in.
  pub batch_provision-places :
      (fuel : ℕ) (routes : List RouteRequest) (certs : Certs) (w w' : W)
      (out : List ProvisionedRoute)
      → batch_provision p fuel routes certs w ≡ (ok (some out), w')
      → (new : List Place) × Perm (placed w') (placed w ++ new)
        × (map p.mapper.map_rule routes ≡ map ok (map (λ x. x.1) new))
        × (map (λ a. a.gateway_id) out ≡ gateways p k new)
        × (map answer out ≡ map (expected p.mapper) routes)
  unfolding batch_provision list_managed_ingresses
  batch_provision-places fuel routes certs w w' out h =
      let max = p.max_routes_per_ingress in
      let mapping = map_routes p routes w in
      let (mapped, e₁, h₁) = continue-step mapping.0 _ mapping.1 h in
      let (rules, w₁) = map_routes-rules routes w mapping.1 mapped (λ i. (e₁ i, mapping.1)) in
      let listing = list_managed_ingresses p mapping.1 in
      let (ingresses, e₂, h₂) = continue-step listing.0 _ listing.1 h₁ in
      let filled = fill_existing max (sort_by_rules ingresses) mapped in
      let creating = create_buckets p fuel (length ingresses) filled.1 listing.1 in
      let (new, e₃, h₃) = continue-step creating.0 (finish p certs filled.0) creating.1 h₂ in
      let (bs, e₄, put, named) = finish-placed certs filled.0 new creating.1 w' out h₃ in
      let buckets : creating ≡ (ok (some bs), creating.1) =
        λ i. ((e₃ ∙ ap (λ (o : Option (List Batch)). ok o) e₄) i, creating.1) in
      let (whole, sized) =
        create_buckets_complete p fuel (length ingresses) filled.1 listing.1
          (ap (λ (r : Result (Option (List Batch)) × W). r.0) buckets) in
      let first =
        create_buckets-placed p k fuel (length ingresses) filled.1 listing.1 creating.1 bs
          buckets in
      let patches =
        patched_in-filled max (sort_by_rules ingresses) mapped bs
          (patched_in-created p k bs sized) in
      let stored =
        added p k (placed listing.1) (places_in bs) (places_in filled.0) first
          (subst (λ l. Perm (placed w') (placed creating.1 ++ l)) patches put) in
      let same : placed listing.1 ≡ placed w = k.list_lem mapping.1 ∙ ap placed w₁ in
      let all : routes_in (filled.0 ++ bs) ≡ mapped =
        routes_in-append filled.0 bs
        ∙ ap (λ (l : List MappedRoute). routes_in filled.0 ++ l) whole
        ∙ fill_existing_complete max (sort_by_rules ingresses) mapped in
      (
        places_in (filled.0 ++ bs),
        subst (λ before. Perm (placed w') (before ++ places_in (filled.0 ++ bs))) same
            (Perm.trans stored (
              (perm-append_left_iff (placed listing.1)).1 (
                subst (λ l. Perm (places_in bs ++ places_in filled.0) l)
                  (sym (places_in-append filled.0 bs))
                  (perm_append_comm (places_in bs) (places_in filled.0))))),
        rules ∙ ap (map ok) (ap rules_of (sym all) ∙ sym (places_in-rules (filled.0 ++ bs))),
        named,
        batch_provision-answers p fuel routes certs w
            (ap (λ (r : Result (Option (List ProvisionedRoute)) × W). r.0) h),
      )
