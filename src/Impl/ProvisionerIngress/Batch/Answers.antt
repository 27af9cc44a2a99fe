-- ===== src/Impl/ProvisionerIngress/Batch/Answers.antt =====
-- What `BatchProvision` of impl/provisioner-ingress/provisioner.go answers, and its fuel.
use dynamic_routes_provision.Base.{
  String, ℕ, ◌≤◌, ◌<◌, ◌≡◌, ◌≢◌, refl, sym, ap, ◌∙◌, Option, none, some, List, [], ◌∷◌, ◌++◌, map,
  arith, length, length-map, length-append,
}
use mathlib.Core.Option.{some-injective, some-ne-none}
use mathlib.Core.List.{map-append, append_assoc}
use dynamic_routes_provision.Core.Result.{ok, pure}
use dynamic_routes_provision.Core.Result.Rules.{continue-eq-ok, ok-injective}
use dynamic_routes_provision.Core.Route.{RouteRequest, ProvisionedRoute}
use dynamic_routes_provision.Core.Interfaces.{Certs}
use dynamic_routes_provision.Impl.ProvisionerIngress.Types.{
  IngressMapper, Ingress, IngressProvisioner,
}
use dynamic_routes_provision.Impl.ProvisionerIngress.Patches.{
  list_managed_ingresses, build_provisioned_route,
}
use dynamic_routes_provision.Impl.ProvisionerIngress.Batch.{
  MappedRoute, Batch, sort_by_rules, fill_existing, map_route, map_routes, create_buckets,
  results_of, patch_batch, apply_batches, finish, batch_provision,
}
use dynamic_routes_provision.Impl.ProvisionerIngress.Batch.Packing.{
  routes_in, fill_existing_complete,
}
use dynamic_routes_provision.Impl.ProvisionerIngress.Batch.Buckets.{
  create_buckets_complete, create_buckets-ends,
}

-- What an answer says of its request: the identifier and the host.
abbrev pub answer : ProvisionedRoute → String × String
answer a = (a.route_id, a.host)

abbrev pub expected : IngressMapper → RouteRequest → String × String
expected mapper req = (mapper.route_id req, req.host)

pub routes_in-append : (xs ys : List Batch) → routes_in (xs ++ ys) ≡ routes_in xs ++ routes_in ys
routes_in-append [] ys = refl
routes_in-append (b ∷ xs) ys =
    ap (λ (l : List MappedRoute). b.routes ++ l) (routes_in-append xs ys)
    ∙ sym (append_assoc b.routes (routes_in xs) (routes_in ys))

module _ {W : Type 0} (p : IngressProvisioner W) where
  abbrev expect : MappedRoute → String × String
  expect m = expected p.mapper m.req

  results_of-answer :
      (certs : Certs) (name : String) (ms : List MappedRoute)
      → map answer (results_of p certs name ms) ≡ map expect ms
  unfolding results_of build_provisioned_route
  results_of-answer certs name [] = refl
  results_of-answer certs name (m ∷ rest) =
      ap (λ (l : List (String × String)). expect m ∷ l) (results_of-answer certs name rest)

  apply_batches-answer :
      (certs : Certs) (bs : List Batch) (w : W) {out : List ProvisionedRoute}
      → (apply_batches p certs bs w).0 ≡ ok out
      → map answer out ≡ map expect (routes_in bs)
  unfolding apply_batches
  apply_batches-answer certs [] w h = rw (← ok-injective h)
  apply_batches-answer certs (b ∷ rest) w {out} h =
      let patched = patch_batch p b w in
      let (u, e, h') = continue-eq-ok patched.0 _ patched.1 h in
      let later = apply_batches p certs rest patched.1 in
      let (results, e', last) =
        continue-eq-ok later.0
          (λ results. pure (results_of p certs b.ingress_name b.routes ++ results)) later.1 h' in
      ap (map answer) (sym (ok-injective last))
      ∙ map-append answer (results_of p certs b.ingress_name b.routes) results
      ∙ (λ i.
          results_of-answer certs b.ingress_name b.routes i
          ++ apply_batches-answer certs rest patched.1 e' i)
      ∙ sym (map-append expect b.routes (routes_in rest))

  map_route-req : (req : RouteRequest) {m : MappedRoute} → map_route p req ≡ ok m → m.req ≡ req
  unfolding map_route
  map_route-req req h = ground arith

  map_routes-req :
      (reqs : List RouteRequest) (w : W) {ms : List MappedRoute}
      → (map_routes p reqs w).0 ≡ ok ms
      → map expect ms ≡ map (expected p.mapper) reqs
  unfolding map_routes
  map_routes-req [] w h = rw (← ok-injective h)
  map_routes-req (req ∷ rest) w {ms} h =
      let (m, e, h') = continue-eq-ok (map_route p req) _ w h in
      let later = map_routes p rest w in
      let (ms', e', last) = continue-eq-ok later.0 (λ l. pure (m ∷ l)) later.1 h' in
      ap (map expect) (sym (ok-injective last))
      ∙ (λ i. expected p.mapper (map_route-req req e i) ∷ map_routes-req rest w e' i)

  finish-answer :
      (certs : Certs) (filled : List Batch) (created : Option (List Batch)) (w : W)
      {out : List ProvisionedRoute}
      → (finish p certs filled created w).0 ≡ ok (some out)
      → (bs : List Batch) × (created ≡ some bs)
        × (map answer out ≡ map expect (routes_in (filled ++ bs)))
  unfolding finish
  finish-answer certs filled none w h = cc
  finish-answer certs filled (some bs) w {out} h =
      let applied = apply_batches p certs (filled ++ bs) w in
      let (results, e, last) = continue-eq-ok applied.0 (λ l. pure (some l)) applied.1 h in
      (
        bs,
        refl,
        ap (map answer) (sym (some-injective _ _ (ok-injective last)))
            ∙ apply_batches-answer certs (filled ++ bs) w e,
      )

  unfinished :
      (certs : Certs) (filled : List Batch) (created : Option (List Batch)) (w : W)
      → (finish p certs filled created w).0 ≡ ok none
      → created ≡ none
  unfolding finish
  unfinished certs filled none w h = refl
  unfinished certs filled (some bs) w h =
      let applied = apply_batches p certs (filled ++ bs) w in
      let (results, e, last) = continue-eq-ok applied.0 (λ l. pure (some l)) applied.1 h in
      absurd (some-ne-none results (ok-injective last))

  -- When `BatchProvision` succeeds it answers for each route, in the order given and once, with
  -- the route's identifier and host.
  pub batch_provision-answers :
      (fuel : ℕ) (routes : List RouteRequest) (certs : Certs) (w : W) {out : List ProvisionedRoute}
      → (batch_provision p fuel routes certs w).0 ≡ ok (some out)
      → map answer out ≡ map (expected p.mapper) routes
  unfolding batch_provision
  batch_provision-answers fuel routes certs w {out} h =
      let mapping = map_routes p routes w in
      let (mapped, e₁, h₁) = continue-eq-ok mapping.0 _ mapping.1 h in
      let listing = list_managed_ingresses p mapping.1 in
      let (ingresses, e₂, h₂) = continue-eq-ok listing.0 _ listing.1 h₁ in
      let filled = fill_existing p.max_routes_per_ingress (sort_by_rules ingresses) mapped in
      let creating = create_buckets p fuel (length ingresses) filled.1 listing.1 in
      let (created, e₃, h₃) = continue-eq-ok creating.0 (finish p certs filled.0) creating.1 h₂ in
      let (bs, e₄, answers) = finish-answer certs filled.0 created creating.1 h₃ in
      let (whole, sized) =
        create_buckets_complete p fuel (length ingresses) filled.1 listing.1
          (e₃ ∙ ap (λ (o : Option (List Batch)). ok o) e₄) in
      answers
      ∙ ap (map expect) (
          routes_in-append filled.0 bs
          ∙ ap (λ (l : List MappedRoute). routes_in filled.0 ++ l) whole
          ∙ fill_existing_complete p.max_routes_per_ingress (sort_by_rules ingresses) mapped)
      ∙ map_routes-req routes w e₁

  map_routes-length :
      (reqs : List RouteRequest) (w : W) {ms : List MappedRoute}
      → (map_routes p reqs w).0 ≡ ok ms
      → length ms ≡ length reqs
  map_routes-length reqs w {ms} h =
      sym (length-map expect ms)
      ∙ ap length (map_routes-req reqs w h)
      ∙ length-map (expected p.mapper) reqs

  left-le :
      (max : ℕ) (ings : List Ingress) (mapped : List MappedRoute)
      → length (fill_existing max ings mapped).1 ≤ length mapped
  left-le max ings mapped =
      let (batches, left) = fill_existing max ings mapped in
      omega (
        arith,
        length-append (routes_in batches) left,
        ap length (fill_existing_complete max ings mapped),
      )

  -- Where an Ingress has room for a route at all, as many rounds of the creating loop as there are
  -- routes are enough: `BatchProvision` returns, with answers or with an error.
  pub batch_provision-ends :
      (fuel : ℕ) (routes : List RouteRequest) (certs : Certs) (w : W)
      → 0 < p.max_routes_per_ingress
      → length routes ≤ fuel
      → (batch_provision p fuel routes certs w).0 ≢ ok none
  unfolding batch_provision finish
  batch_provision-ends fuel routes certs w pos enough h =
      let mapping = map_routes p routes w in
      let (mapped, e₁, h₁) = continue-eq-ok mapping.0 _ mapping.1 h in
      let listing = list_managed_ingresses p mapping.1 in
      let (ingresses, e₂, h₂) = continue-eq-ok listing.0 _ listing.1 h₁ in
      let filled = fill_existing p.max_routes_per_ingress (sort_by_rules ingresses) mapped in
      let creating = create_buckets p fuel (length ingresses) filled.1 listing.1 in
      let (created, e₃, h₃) = continue-eq-ok creating.0 (finish p certs filled.0) creating.1 h₂ in
      create_buckets-ends p fuel (length ingresses) filled.1 listing.1 pos
        (omega (
          arith,
          left-le p.max_routes_per_ingress (sort_by_rules ingresses) mapped,
          map_routes-length routes w e₁,
        ))
        (e₃
          ∙ ap (λ (o : Option (List Batch)). ok o)
              (unfinished certs filled.0 created creating.1 h₃))
