-- ===== src/Impl/ProvisionerIngress/Batch.antt =====
-- `BatchProvision` of impl/provisioner-ingress/provisioner.go.
pub mod Packing
pub mod Buckets
pub mod Answers
pub mod Places
pub mod Steps
pub mod Placed
mod Examples
use mathlib.Core.Option
use dynamic_routes_provision.Base.{
  String, ℕ, zero, suc, ◌-◌, ◌⧺◌, Bool, true, false, Option, none, some, List, [], ◌∷◌, ◌++◌, map,
  if◌then◌else◌, ltb, leb, length, take, drop,
}
use dynamic_routes_provision.Core.Result.{
  Result, ok, Action, pure, lift, ◌>>=◌, ◌>>◌, wrapped, wrapping,
}
use dynamic_routes_provision.Core.Route.{RouteRequest, Certificate, ProvisionedRoute}
use dynamic_routes_provision.Core.Interfaces.{Certs, cert_for}
use dynamic_routes_provision.Impl.ProvisionerIngress.Types.{
  IngressRule, IngressTls, Ingress, IngressProvisioner,
}
use dynamic_routes_provision.Impl.ProvisionerIngress.Patches.{
  add_rules_patches, list_managed_ingresses, apply_json_patch, create_ingress_with_rules,
  build_provisioned_route,
}
use dynamic_routes_provision.Impl.ProvisionerIngress.Single.{tls_entry}

pub record MappedRoute : Type 0 where
  pub req : RouteRequest
  pub rule : IngressRule
  pub tls : Option IngressTls

-- The local type `batch`.
pub record Batch : Type 0 where
  pub ingress_name : String
  pub routes : List MappedRoute
  pub needs_patch : Bool

-- `sort.Slice` by the number of rules, fewest first. Go leaves the order of equal elements open;
-- here it stays.
unfoldable pub insert_by_rules : Ingress → List Ingress → List Ingress
insert_by_rules ing [] = ing ∷ []
insert_by_rules ing (other ∷ rest) =
    let later = insert_by_rules ing rest in
    if leb (length ing.rules) (length other.rules) then ing ∷ other ∷ rest else other ∷ later

unfoldable pub sort_by_rules : List Ingress → List Ingress
unfolding insert_by_rules
sort_by_rules [] = []
sort_by_rules (ing ∷ rest) = insert_by_rules ing (sort_by_rules rest)

-- The loop over the existing Ingresses. It returns the batches and the routes that are left; the
-- slice `mapped[cursor:]` stands for the cursor.
unfoldable pub fill_existing : ℕ → List Ingress → List MappedRoute → List Batch × List MappedRoute
fill_existing max [] mapped = ([], mapped)
fill_existing max (ing ∷ rest) [] = ([], [])
fill_existing max (ing ∷ rest) (m ∷ mapped) =
    let capacity = max - length ing.rules in
    let full = leb capacity 0 in
    let (batches, left) =
      fill_existing max rest (if full then m ∷ mapped else drop capacity (m ∷ mapped)) in
    if full then (batches, left) else (
      record { ingress_name = ing.name; routes = take capacity (m ∷ mapped); needs_patch = true }
          ∷ batches,
      left,
    )

unfoldable pub rules_of : List MappedRoute → List IngressRule
rules_of = map (λ mr. mr.rule)

unfoldable pub tls_of : List MappedRoute → List IngressTls
tls_of [] = []
tls_of (mr ∷ rest) = elim mr.tls [ none ↦ tls_of rest | some tls ↦ tls ∷ tls_of rest ]

module _ {W : Type 0} (p : IngressProvisioner W) where
  unfoldable pub map_route : RouteRequest → Result MappedRoute
  map_route req =
      let rule = wrapped ("map route " ⧺ req.id) (p.mapper.map_rule req) in
      let tls = tls_entry p ("map tls " ⧺ req.id) req in
      elim rule [
        | ok r ↦ elim tls [
          | ok t ↦ ok (record { req = req; rule = r; tls = t })
          | Result.err e ↦ Result.err e
          | Result.panic ↦ Result.panic
        ]
        | Result.err e ↦ Result.err e
        | Result.panic ↦ Result.panic
      ]

  unfoldable pub map_routes : List RouteRequest → Action W (List MappedRoute)
  map_routes [] = pure []
  map_routes (req ∷ rest) = do m ← lift (map_route req); ms ← map_routes rest; pure (m ∷ ms)

  -- The loop that creates Ingresses, on fuel: `none` means that the loop was still running when
  -- the fuel ran out.
  unfoldable pub create_buckets : ℕ → ℕ → List MappedRoute → Action W (Option (List Batch))
  create_buckets fuel index [] = pure (some [])
  create_buckets zero index (m ∷ mapped) = pure none
  create_buckets (suc fuel) index (m ∷ mapped) = do
    let batch_routes = take p.max_routes_per_ingress (m ∷ mapped)
    ing ← create_ingress_with_rules p index (rules_of batch_routes) (tls_of batch_routes)
    batches ← create_buckets fuel (suc index) (drop p.max_routes_per_ingress (m ∷ mapped))
    pure (
        Option.map
          (λ bs.
            record { ingress_name = ing.name; routes = batch_routes; needs_patch = false } ∷ bs)
          batches)

  unfoldable pub results_of : Certs → String → List MappedRoute → List ProvisionedRoute
  results_of certs ingress_name = map λ mr.
      build_provisioned_route p (p.mapper.route_id mr.req) mr.req.host ingress_name
        (cert_for mr.req.host certs)

  unfoldable pub patch_batch : Batch → Action W (Unit {0})
  patch_batch b =
      if b.needs_patch
      then wrapping ("patch ingress " ⧺ b.ingress_name) (
          apply_json_patch p b.ingress_name
            (add_rules_patches (rules_of b.routes) (tls_of b.routes)))
      else pure tt

  -- The last loop: one patch for each existing Ingress.
  unfoldable pub apply_batches : Certs → List Batch → Action W (List ProvisionedRoute)
  unfolding patch_batch results_of
  apply_batches certs [] = pure []
  apply_batches certs (b ∷ rest) = do
    patch_batch b
    results ← apply_batches certs rest
    pure (results_of certs b.ingress_name b.routes ++ results)

  unfoldable pub finish :
      Certs → List Batch → Option (List Batch) → Action W (Option (List ProvisionedRoute))
  finish certs filled none = pure none
  finish certs filled (some created) = do
    results ← apply_batches certs (filled ++ created)
    pure (some results)

  -- `none` means that the loop that creates Ingresses did not end within the fuel.
  unfoldable pub batch_provision :
      ℕ → List RouteRequest → Certs → Action W (Option (List ProvisionedRoute))
  batch_provision fuel routes certs = do
    mapped ← map_routes routes
    ingresses ← list_managed_ingresses p
    let filled = fill_existing p.max_routes_per_ingress (sort_by_rules ingresses) mapped
    created ← create_buckets fuel (length ingresses) filled.1
    finish certs filled.0 created
