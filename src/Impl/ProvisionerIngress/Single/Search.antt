-- ===== src/Impl/ProvisionerIngress/Single/Search.antt =====
-- Where `Provision` and `Deprovision` find a route, and what follows when it is not found.
use dynamic_routes_provision.Base.{
  String, ℕ, suc, ◌+◌, ◌≡◌, refl, ap, ◌∙◌, Bool, true, false, Option, none, some, List, [], ◌∷◌,
  arith, ◌==◌, any, All, length, Bool-cases, inl, inr, ltb, get_elem?,
}
use mathlib.Core.Option.{some-injective}
use native.Mathlib.Nat.{add-zero, zero-add}
use dynamic_routes_provision.Core.Result.{ok, err, Error, wrap, pure, ◌>>=◌}
use dynamic_routes_provision.Core.Route.{RouteRequest, Certificate}
use dynamic_routes_provision.Impl.ProvisionerIngress.Types.{
  IngressRule, IngressTls, Ingress, IngressMapper, IngressProvisioner,
}
use dynamic_routes_provision.Impl.ProvisionerIngress.Patches.{
  list_managed_ingresses, create_ingress_with_rules, new_ingress, build_provisioned_route,
}
use dynamic_routes_provision.Impl.ProvisionerIngress.Single.{
  Place, find_rule, find_place, find_with_capacity, tls_entry, tls_list, place_rule, provision_at,
  provision, deprovision_at, deprovision,
}

module _ (mapper : IngressMapper) (route_id : String) where
  abbrev pub has_id : IngressRule → Bool
  has_id r = mapper.extract_route_id r == route_id

  -- Some rule that is stored has the identifier.
  abbrev pub holds : List Ingress → Bool
  holds = any (λ i. any has_id i.rules)

  find_rule-none :
      (ing : Ingress) (i : ℕ) (rules : List IngressRule)
      → any has_id rules ≡ false
      → find_rule mapper route_id ing i rules ≡ none
  unfolding find_rule
  find_rule-none ing i [] h = refl
  find_rule-none ing i (r ∷ rest) h = ground (arith, find_rule-none ing (suc i) rest)

  pub find_place-none :
      (ings : List Ingress) → holds ings ≡ false → find_place mapper route_id ings ≡ none
  unfolding find_place
  find_place-none [] h = refl
  find_place-none (ing ∷ rest) h =
      ground (arith, find_place-none rest, find_rule-none ing 0 ing.rules)

  find_rule-some :
      (ing : Ingress) (i : ℕ) (rules : List IngressRule) {place : Place}
      → find_rule mapper route_id ing i rules ≡ some place
      → (j : ℕ) × (place.index ≡ i + j)
        × (place.ingress ≡ ing)
        × (get_elem? rules j ≡ some place.rule)
        × (has_id place.rule ≡ true)
  unfolding find_rule
  find_rule-some ing i [] h = cc
  find_rule-some ing i (r ∷ rest) {place} h = elim (Bool-cases (has_id r)) [
    | inl here ↦ (0, ground (arith, add-zero i), ground arith, ground arith, ground arith)
    | inr later ↦
        let (j, at, own, elem, id) = find_rule-some ing (suc i) rest (simp later at h) in
        (suc j, omega (arith, at), own, elem, id)
  ]

  -- A place that is found is the place of a rule with the identifier: the rule stands in that
  -- Ingress at that index.
  pub find_place-some :
      (ings : List Ingress) {place : Place}
      → find_place mapper route_id ings ≡ some place
      → (get_elem? place.ingress.rules place.index ≡ some place.rule) × (has_id place.rule ≡ true)
  unfolding find_place
  find_place-some [] h = cc
  find_place-some (ing ∷ rest) {place} h =
      go (λ h'. find_place-some rest h') (find_rule mapper route_id ing 0 ing.rules) refl
    where
      Found : Type 0
      Found =
          (get_elem? place.ingress.rules place.index ≡ some place.rule) × (has_id place.rule ≡ true)

      go :
          (find_place mapper route_id rest ≡ some place → Found)
          → (o : Option Place) → find_rule mapper route_id ing 0 ing.rules ≡ o
          → Found
      go later none e = later (rw (e, find_place) at h)
      go later (some q) e =
          let same : q ≡ place = some-injective q place (rw (e, find_place) at h) in
          let (j, at, own, elem, id) =
            find_rule-some ing 0 ing.rules (e ∙ ap (λ (x : Place). some x) same) in
          (rw (own, at, zero-add) elem, id)

-- Each Ingress is full.
abbrev pub Full : ℕ → List Ingress → Type 0
Full max = All (λ i. ltb (length i.rules) max ≡ false)

find_with_capacity-none :
    (max : ℕ) (ings : List Ingress) → Full max ings → find_with_capacity max ings ≡ none
unfolding find_with_capacity
find_with_capacity-none max [] h = refl
find_with_capacity-none max (i ∷ rest) h = ground (arith, find_with_capacity-none max rest h.1, h.0)

module _ {W : Type 0} (p : IngressProvisioner W) where
  -- `Deprovision` with an identifier that no stored rule has succeeds and sends the API nothing but
  -- the listing: whatever the route is, it stays.
  pub deprovision-unknown :
      (route_id : String) (ings : List Ingress) (w w' : W)
      → list_managed_ingresses p w ≡ (ok ings, w')
      → holds p.mapper route_id ings ≡ false
      → deprovision p route_id w ≡ (ok tt, w')
  unfolding deprovision deprovision_at
  deprovision-unknown route_id ings w w' listed unknown =
      rw listed (rw (find_place-none p.mapper route_id ings unknown, deprovision_at))

  -- A new route that is mapped without an error, when the Ingresses can be listed and every one
  -- is full, gets an Ingress named after the number of Ingresses. If the API refuses to create
  -- it, as it does for a name that is taken, `Provision` returns the error and the world is as
  -- the refusal left it.
  pub provision-name_taken :
      (req : RouteRequest) (cert : Option Certificate) (rule : IngressRule)
      (tls : Option IngressTls) (ings : List Ingress) (w w' w'' : W) (e : Error)
      → p.mapper.map_rule req ≡ ok rule
      → tls_entry p "map tls" req ≡ ok tls
      → list_managed_ingresses p w ≡ (ok ings, w')
      → holds p.mapper (p.mapper.route_id req) ings ≡ false
      → Full p.max_routes_per_ingress ings
      → p.api.create p.namespace (new_ingress p (length ings) (rule ∷ []) (tls_list tls)) w'
        ≡ (err e, w'')
      → provision p req cert w ≡ (err (wrap "create ingress" e), w'')
  unfolding provision provision_at place_rule create_ingress_with_rules
  provision-name_taken req cert rule tls ings w w' w'' e mapped entry listed fresh full refused =
      rw (mapped, entry, listed)
        (ap (λ (o : Option Place). provision_at p o ings rule tls req cert w')
            (find_place-none p.mapper (p.mapper.route_id req) ings fresh)
          ∙ ap
              (λ (o : Option Ingress).
                (place_rule p ings o rule tls >>= λ ingress_name.
                pure (build_provisioned_route p (p.mapper.route_id req) req.host ingress_name cert))
                  w')
              (find_with_capacity-none p.max_routes_per_ingress ings full)
          ∙ rw refused)
