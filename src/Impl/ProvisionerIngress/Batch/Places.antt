-- ===== src/Impl/ProvisionerIngress/Batch/Places.antt =====
-- The Ingresses that the rules of impl/provisioner-ingress/provisioner.go are stored in, and the
-- places that the batches of `BatchProvision` stand for.
use mathlib.Core.List.{append_assoc, map-append, Perm}
use dynamic_routes_provision.Base.{
  String, ℕ, ◌-◌, ◌≡◌, refl, sym, ap, ◌∙◌, List, [], ◌∷◌, ◌++◌, map, if◌then◌else◌, leb, length,
  take, drop, Bool-cases, inl, inr,
}
use dynamic_routes_provision.Core.Result.{ok}
use dynamic_routes_provision.Impl.ProvisionerIngress.Types.{
  IngressRule, IngressTls, Ingress, IngressProvisioner,
}
use dynamic_routes_provision.Impl.ProvisionerIngress.Patches.{label_selector, add_rules_patches}
use dynamic_routes_provision.Impl.ProvisionerIngress.Batch.{
  MappedRoute, Batch, fill_existing, rules_of,
}
use dynamic_routes_provision.Impl.ProvisionerIngress.Batch.Packing.{routes_in}

-- A rule and the name of the Ingress that holds it.
abbrev pub Place : Type 0
Place = String × IngressRule

abbrev pub at_name : String → List IngressRule → List Place
at_name name = map (λ r. (name, r))

-- What the API server is documented to do, as far as `BatchProvision` calls it, with `placed` the
-- rules that it stores, in any order: listing changes none, and an Ingress that was created and a
-- patch that was applied have added just their rules, under their name.
pub record IsRuleStore {W : Type 0} (p : IngressProvisioner W) : Type 0 where
  pub placed : W → List Place
  pub list_lem : (w : W) → placed (p.api.list p.namespace (label_selector p) w).1 ≡ placed w
  pub create_lem :
      (ing made : Ingress) (w : W)
      → (p.api.create p.namespace ing w).0 ≡ ok made
      → Perm (placed (p.api.create p.namespace ing w).1) (placed w ++ at_name made.name ing.rules)
  pub patch_lem :
      (name : String) (rules : List IngressRule) (tls : List IngressTls) (w : W)
      → (p.api.patch p.namespace name (add_rules_patches rules tls) w).0 ≡ ok tt
      → Perm
          (placed (p.api.patch p.namespace name (add_rules_patches rules tls) w).1)
          (placed w ++ at_name name rules)

-- The places that batches stand for, and those that are still to be patched.
abbrev pub places_in : List Batch → List Place
places_in [] = []
places_in (b ∷ rest) = at_name b.ingress_name (rules_of b.routes) ++ places_in rest

abbrev pub patched_in : List Batch → List Place
patched_in [] = []
patched_in (b ∷ rest) =
    (if b.needs_patch then at_name b.ingress_name (rules_of b.routes) else []) ++ patched_in rest

pub places_in-append : (xs ys : List Batch) → places_in (xs ++ ys) ≡ places_in xs ++ places_in ys
places_in-append [] ys = refl
places_in-append (b ∷ xs) ys =
    ap (λ (l : List Place). at_name b.ingress_name (rules_of b.routes) ++ l)
      (places_in-append xs ys)
    ∙ sym (append_assoc (at_name b.ingress_name (rules_of b.routes)) (places_in xs) (places_in ys))

at_name-rules : (name : String) (rs : List IngressRule) → map (λ x. x.1) (at_name name rs) ≡ rs
at_name-rules name [] = refl
at_name-rules name (r ∷ rs) = ap (λ (l : List IngressRule). r ∷ l) (at_name-rules name rs)

pub places_in-rules : (bs : List Batch) → map (λ x. x.1) (places_in bs) ≡ rules_of (routes_in bs)
unfolding rules_of
places_in-rules [] = refl
places_in-rules (b ∷ rest) =
    map-append (λ x. x.1) (at_name b.ingress_name (rules_of b.routes)) (places_in rest)
    ∙ (λ i. at_name-rules b.ingress_name (rules_of b.routes) i ++ places_in-rules rest i)
    ∙ sym (map-append (λ (m : MappedRoute). m.rule) b.routes (routes_in rest))

-- The batches of existing Ingresses are all patched, and new Ingresses are not.
pub patched_in-filled :
    (max : ℕ) (ings : List Ingress) (mapped : List MappedRoute) (bs : List Batch)
    → patched_in bs ≡ []
    → patched_in ((fill_existing max ings mapped).0 ++ bs)
      ≡ places_in (fill_existing max ings mapped).0
unfolding fill_existing
patched_in-filled max [] mapped bs h = h
patched_in-filled max (ing ∷ rest) [] bs h = h
patched_in-filled max (ing ∷ rest) (m ∷ mapped) bs h =
    elim (Bool-cases (leb (max - length ing.rules) 0)) [
      | inl full ↦ simp full (patched_in-filled max rest (m ∷ mapped) bs h)
      | inr room ↦ simp room (
          ap
            (λ (l : List Place).
              at_name ing.name (rules_of (take (max - length ing.rules) (m ∷ mapped))) ++ l)
            (patched_in-filled max rest (drop (max - length ing.rules) (m ∷ mapped)) bs h))
    ]
