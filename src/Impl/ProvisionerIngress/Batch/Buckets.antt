-- ===== src/Impl/ProvisionerIngress/Batch/Buckets.antt =====
-- The loop of `BatchProvision` that creates Ingresses: what it packs, and its fuel.
use mathlib.Core.Option
use mathlib.Core.Path.{subst}
use dynamic_routes_provision.Base.{
  ℕ, zero, suc, ◌≤◌, ◌<◌, ◌≡◌, ◌≢◌, refl, ap, ◌∙◌, false, Option, none, some, List, [], ◌∷◌, ◌++◌,
  arith, length, take, drop, take-append-drop, length-take, length-drop, All,
}
use dynamic_routes_provision.Core.Result.{ok, pure}
use dynamic_routes_provision.Core.Result.Rules.{continue-eq-ok, ok-injective}
use dynamic_routes_provision.Impl.ProvisionerIngress.Types.{Ingress, IngressProvisioner}
use dynamic_routes_provision.Impl.ProvisionerIngress.Patches.{create_ingress_with_rules}
use dynamic_routes_provision.Impl.ProvisionerIngress.Batch.{
  MappedRoute, Batch, rules_of, tls_of, create_buckets,
}
use dynamic_routes_provision.Impl.ProvisionerIngress.Batch.Packing.{routes_in}

pub map-eq-some {ℓ} :
    {A B : Type ℓ} (f : A → B) (o : Option A) {b : B}
    → Option.map f o ≡ some b
    → (a : A) × (o ≡ some a) × (f a ≡ b)
map-eq-some f none h = cc
map-eq-some f (some a) h = (a, refl, cc)

map-eq-none {ℓ} : {A B : Type ℓ} (f : A → B) (o : Option A) → Option.map f o ≡ none → o ≡ none
map-eq-none f none h = refl
map-eq-none f (some a) h = cc

module _ {W : Type 0} (p : IngressProvisioner W) where
  -- The routes of the first new Ingress, and those that are left for the next ones.
  abbrev first_bucket : MappedRoute → List MappedRoute → List MappedRoute
  first_bucket m mapped = take p.max_routes_per_ingress (m ∷ mapped)

  abbrev next_routes : MappedRoute → List MappedRoute → List MappedRoute
  next_routes m mapped = drop p.max_routes_per_ingress (m ∷ mapped)

  abbrev bucket : Ingress → MappedRoute → List MappedRoute → Batch
  bucket ing m mapped = record {
    ingress_name = ing.name;
    routes = first_bucket m mapped;
    needs_patch = false;
  }

  -- One round: an Ingress was created, and the rest of the loop returned.
  round :
      (fuel index : ℕ) (m : MappedRoute) (mapped : List MappedRoute) (w : W)
      (r : Option (List Batch))
      → (create_buckets p (suc fuel) index (m ∷ mapped) w).0 ≡ ok r
      → (ing : Ingress) × (bs : Option (List Batch)) × (w' : W) × ((create_buckets p fuel
            (suc index)
            (next_routes m mapped)
            w').0
          ≡ ok bs)
        × (Option.map (λ l. bucket ing m mapped ∷ l) bs ≡ r)
  unfolding create_buckets
  round fuel index m mapped w r h =
      let made =
        create_ingress_with_rules p index (rules_of (first_bucket m mapped))
          (tls_of (first_bucket m mapped)) w in
      let (ing, e, rest) = continue-eq-ok made.0 _ made.1 h in
      let later = create_buckets p fuel (suc index) (next_routes m mapped) made.1 in
      let (bs, e', last) =
        continue-eq-ok later.0 (λ batches. pure (Option.map (λ l. bucket ing m mapped ∷ l) batches))
          later.1 rest in
      (ing, bs, made.1, e', ok-injective last)

  abbrev pub Sized : Batch → Type 0
  Sized b = (length b.routes ≤ p.max_routes_per_ingress) × (b.needs_patch ≡ false)

  -- When the loop ends, the new Ingresses hold the routes that it was given, in order, none lost or
  -- repeated, each at most `max_routes_per_ingress` of them, and need no patch.
  pub create_buckets_complete :
      (fuel index : ℕ) (mapped : List MappedRoute) (w : W) {bs : List Batch}
      → (create_buckets p fuel index mapped w).0 ≡ ok (some bs)
      → (routes_in bs ≡ mapped) × All Sized bs
  unfolding create_buckets
  create_buckets_complete fuel index [] w h = (ground arith, ground arith)
  create_buckets_complete zero index (m ∷ mapped) w h = cc
  create_buckets_complete (suc fuel) index (m ∷ mapped) w {bs} h =
      let (ing, rest, w', e, joined) = round fuel index m mapped w (some bs) h in
      let (bs', e', cons) = map-eq-some (λ l. bucket ing m mapped ∷ l) rest joined in
      let ih =
        create_buckets_complete fuel (suc index) (next_routes m mapped) w'
          (e ∙ ap (λ (o : Option (List Batch)). ok o) e') in
      subst (λ l. (routes_in l ≡ m ∷ mapped) × All Sized l) cons
        (
          ap (λ (l : List MappedRoute). first_bucket m mapped ++ l) ih.0
              ∙ take-append-drop p.max_routes_per_ingress (m ∷ mapped),
          ((omega (arith, length-take p.max_routes_per_ingress (m ∷ mapped)), refl), ih.1),
        )

  -- With room for at least one route in an Ingress, as many rounds as there are routes are enough:
  -- the loop ends, by success or by an error.
  pub create_buckets-ends :
      (fuel index : ℕ) (mapped : List MappedRoute) (w : W)
      → 0 < p.max_routes_per_ingress
      → length mapped ≤ fuel
      → (create_buckets p fuel index mapped w).0 ≢ ok none
  unfolding create_buckets
  create_buckets-ends fuel index [] w pos enough h = cc
  create_buckets-ends zero index (m ∷ mapped) w pos enough h = absurd (omega arith)
  create_buckets-ends (suc fuel) index (m ∷ mapped) w pos enough h =
      let (ing, rest, w', e, joined) = round fuel index m mapped w none h in
      create_buckets-ends fuel (suc index) (next_routes m mapped) w' pos
        (omega (arith, length-drop p.max_routes_per_ingress (m ∷ mapped)))
        (e
          ∙ ap (λ (o : Option (List Batch)). ok o)
              (map-eq-none (λ l. bucket ing m mapped ∷ l) rest joined))
