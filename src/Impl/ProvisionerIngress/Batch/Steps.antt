-- ===== src/Impl/ProvisionerIngress/Batch/Steps.antt =====
-- What the loops of `BatchProvision` of impl/provisioner-ingress/provisioner.go store.
use mathlib.Core.Option
use mathlib.Core.Option.{some-injective, some-ne-none}
use mathlib.Core.Path.{subst}
use mathlib.Core.List.{append_assoc, append-nil, map-append, Perm}
use mathlib.Core.List.Perm
use dynamic_routes_provision.Base.{
  String, ℕ, Bool, zero, suc, ◌⧺◌, ◌≡◌, refl, sym, ap, ◌∙◌, true, false, Option, some, List, [],
  ◌∷◌, ◌++◌, map, if◌then◌else◌, take, drop, All,
}
use dynamic_routes_provision.Core.Result.{Result, ok, pure}
use dynamic_routes_provision.Core.Result.Rules.{continue-step, wrapped-eq-ok, ok-injective}
use dynamic_routes_provision.Core.Route.{ProvisionedRoute}
use dynamic_routes_provision.Core.Interfaces.{Certs}
use dynamic_routes_provision.Impl.ProvisionerIngress.Types.{
  IngressRule, IngressTls, Ingress, IngressProvisioner,
}
use dynamic_routes_provision.Impl.ProvisionerIngress.Patches.{
  apply_json_patch, new_ingress, create_ingress_with_rules, build_provisioned_route,
}
use dynamic_routes_provision.Impl.ProvisionerIngress.Batch.{
  MappedRoute, Batch, rules_of, tls_of, create_buckets, results_of, patch_batch, apply_batches,
}
use dynamic_routes_provision.Impl.ProvisionerIngress.Batch.Buckets.{map-eq-some, Sized}
use dynamic_routes_provision.Impl.ProvisionerIngress.Batch.Places.{
  Place, at_name, IsRuleStore, places_in, patched_in,
}

module _ {W : Type 0} (p : IngressProvisioner W) (k : IsRuleStore p) where
  open k use {placed}

  pub patched_in-created : (bs : List Batch) → All (Sized p) bs → patched_in bs ≡ []
  patched_in-created [] h = refl
  patched_in-created (b ∷ rest) (h, t) = rw h.1 (patched_in-created rest t)

  -- One addition after another.
  pub added :
      (before xs ys : List Place) {middle after : List Place}
      → Perm middle (before ++ xs)
      → Perm after (middle ++ ys)
      → Perm after (before ++ (xs ++ ys))
  added before xs ys first second =
      rw (append_assoc before xs ys) at (Perm.trans second (Perm.append first (Perm.refl ys)))

  created :
      (index : ℕ) (rules : List IngressRule) (tls : List IngressTls) (w : W) (ing : Ingress)
      → (create_ingress_with_rules p index rules tls w).0 ≡ ok ing
      → Perm
          (placed (create_ingress_with_rules p index rules tls w).1)
          (placed w ++ at_name ing.name rules)
  unfolding create_ingress_with_rules new_ingress
  created index rules tls w ing h = k.create_lem _ ing w (wrapped-eq-ok "create ingress" _ h)

  pub create_buckets-placed :
      (fuel index : ℕ) (mapped : List MappedRoute) (w w' : W) (bs : List Batch)
      → create_buckets p fuel index mapped w ≡ (ok (some bs), w')
      → Perm (placed w') (placed w ++ places_in bs)
  unfolding create_buckets
  create_buckets-placed fuel index [] w w' bs h =
      let e : [] ≡ bs = some-injective _ _ (ok-injective (ap (λ (r : Result _ × W). r.0) h)) in
      let same : w ≡ w' = ap (λ (r : Result _ × W). r.1) h in
      subst (λ (x : List Batch × W). Perm (placed x.1) (placed w ++ places_in x.0))
        (λ i. (e i, same i)) (rw (append-nil (placed w)) (Perm.refl (placed w)))
  create_buckets-placed zero index (m ∷ mapped) w w' bs h =
      absurd (some-ne-none bs (sym (ok-injective (ap (λ (r : Result _ × W). r.0) h))))
  create_buckets-placed (suc fuel) index (m ∷ mapped) w w' bs h =
      let bucket = take p.max_routes_per_ingress (m ∷ mapped) in
      let left = drop p.max_routes_per_ingress (m ∷ mapped) in
      let made = create_ingress_with_rules p index (rules_of bucket) (tls_of bucket) w in
      let (ing, e, h₁) = continue-step made.0 _ made.1 h in
      let later = create_buckets p fuel (suc index) left made.1 in
      let cons : List Batch → List Batch =
        λ l. record { ingress_name = ing.name; routes = bucket; needs_patch = false } ∷ l in
      let (rest, e', h₂) =
        continue-step later.0 (λ batches. pure (Option.map cons batches)) later.1 h₁ in
      let (bs', some_bs, joined) =
        map-eq-some cons rest (ok-injective (ap (λ (r : Result _ × W). r.0) h₂)) in
      let same : later.1 ≡ w' = ap (λ (r : Result _ × W). r.1) h₂ in
      subst (λ (x : List Batch × W). Perm (placed x.1) (placed w ++ places_in x.0))
        (λ i. (joined i, same i))
        (added (placed w) (at_name ing.name (rules_of bucket)) (places_in bs')
          (created index (rules_of bucket) (tls_of bucket) w ing e)
          (create_buckets-placed fuel (suc index) left made.1 later.1 bs'
            (λ i. ((e' ∙ ap (λ (o : Option (List Batch)). ok o) some_bs) i, later.1))))

  patch_batch-placed :
      (patched : Bool) (b : Batch) (w : W)
      → b.needs_patch ≡ patched
      → (patch_batch p b w).0 ≡ ok tt
      → Perm
          (placed (patch_batch p b w).1)
          (placed w ++ (if b.needs_patch then at_name b.ingress_name (rules_of b.routes) else []))
  unfolding patch_batch apply_json_patch
  patch_batch-placed true b w e h = rw e (
      k.patch_lem b.ingress_name (rules_of b.routes) (tls_of b.routes) w
        (wrapped-eq-ok ("patch ingress " ⧺ b.ingress_name) _ (rw e at h)))
  patch_batch-placed false b w e h = rw (e, append-nil (placed w)) (Perm.refl (placed w))

  -- The Ingress that an answer names.
  abbrev pub gateways : List Place → List String
  gateways = map (λ x. p.namespace ⧺ "/" ⧺ x.0)

  results_of-gateways :
      (certs : Certs) (name : String) (ms : List MappedRoute)
      → map (λ a. a.gateway_id) (results_of p certs name ms) ≡ gateways (at_name name (rules_of ms))
  unfolding results_of build_provisioned_route rules_of
  results_of-gateways certs name [] = refl
  results_of-gateways certs name (m ∷ rest) =
      ap (λ (l : List String). (p.namespace ⧺ "/" ⧺ name) ∷ l) (results_of-gateways certs name rest)

  pub apply_batches-placed :
      (certs : Certs) (bs : List Batch) (w w' : W) (out : List ProvisionedRoute)
      → apply_batches p certs bs w ≡ (ok out, w')
      → Perm (placed w') (placed w ++ patched_in bs)
        × (map (λ a. a.gateway_id) out ≡ gateways (places_in bs))
  unfolding apply_batches
  apply_batches-placed certs [] w w' out h =
      let same : w ≡ w' = ap (λ (r : Result _ × W). r.1) h in
      (
        subst (λ (x : W). Perm (placed x) (placed w ++ [])) same
            (rw (append-nil (placed w)) (Perm.refl (placed w))),
        ap (map (λ a. a.gateway_id))
            (sym (ok-injective (ap (λ (r : Result (List ProvisionedRoute) × W). r.0) h))),
      )
  apply_batches-placed certs (b ∷ rest) w w' out h =
      let patched = patch_batch p b w in
      let (u, e, h₁) = continue-step patched.0 _ patched.1 h in
      let later = apply_batches p certs rest patched.1 in
      let (results, e', h₂) =
        continue-step later.0
          (λ results. pure (results_of p certs b.ingress_name b.routes ++ results)) later.1 h₁ in
      let (put, named) =
        apply_batches-placed certs rest patched.1 later.1 results (λ i. (e' i, later.1)) in
      let same : later.1 ≡ w' = ap (λ (r : Result _ × W). r.1) h₂ in
      (
        subst (λ (x : W). Perm (placed x) (placed w ++ patched_in (b ∷ rest))) same
            (added (placed w)
              (if b.needs_patch then at_name b.ingress_name (rules_of b.routes) else [])
              (patched_in rest) (patch_batch-placed b.needs_patch b w refl e) put),
        ap (map (λ a. a.gateway_id))
              (sym (ok-injective (ap (λ (r : Result (List ProvisionedRoute) × W). r.0) h₂)))
            ∙ map-append (λ a. a.gateway_id) (results_of p certs b.ingress_name b.routes) results
            ∙ (λ i. results_of-gateways certs b.ingress_name b.routes i ++ named i)
            ∙ sym (
                map-append (λ x. p.namespace ⧺ "/" ⧺ x.0)
                  (at_name b.ingress_name (rules_of b.routes)) (places_in rest)),
      )
