-- ===== src/Impl/ProvisionerIngress/Removal/Contract.antt =====
-- What the API server promises `BatchDeprovision` of impl/provisioner-ingress/provisioner.go.
use dynamic_routes_provision.Base.{
  String, ◌≡◌, ◌≢◌, refl, ◌&&◌, any, eq_refl, Bool, true, false, not, List, [], ◌∷◌, ◌++◌, map,
  arith, ◌==◌, if◌then◌else◌, filter, any-append,
}
use dynamic_routes_provision.Core.Result.{Error, ok, err}
use dynamic_routes_provision.Impl.ProvisionerIngress.Types.{
  IngressRule, IngressTls, Ingress, IngressMapper, IngressProvisioner, replace_rules,
  replace_tls_list,
}
use dynamic_routes_provision.Impl.ProvisionerIngress.Patches.{label_selector}
use dynamic_routes_provision.Impl.ProvisionerIngress.Removal.{is_empty}
use dynamic_routes_provision.Impl.ProvisionerIngress.Removal.Kept.{condemned}
use dynamic_routes_provision.Impl.ProvisionerIngress.Removal.Lists.{named, or_true}

-- An Ingress of this name is stored, and it has TLS entries: one without any is stored without the
-- field /spec/tls.
abbrev pub with_tls : String → List Ingress → Bool
with_tls name = any (λ i. (i.name == name) && not (is_empty i.tls))

-- What the API server is documented to do, as far as `BatchDeprovision` calls it: it lists the
-- managed Ingresses, deletes an Ingress by its name, and replaces /spec/rules and /spec/tls. To
-- replace a path that does not exist is an error (RFC 6902), and a patch with an error changes
-- nothing.
pub record IsStore {W : Type 0} (p : IngressProvisioner W) : Type 0 where
  pub store : W → List Ingress
  pub list_lem : (w : W) → p.api.list p.namespace (label_selector p) w ≡ (ok (store w), w)
  pub delete_ok :
      (name : String) (w : W)
      → named name (store w) ≡ true
      → (p.api.delete p.namespace name w).0 ≡ ok tt
  pub delete_lem :
      (name : String) (w : W)
      → named name (store w) ≡ true
      → store (p.api.delete p.namespace name w).1 ≡ filter (λ i. not (i.name == name)) (store w)
  pub replace_ok :
      (name : String) (rules : List IngressRule) (tls : List IngressTls) (w : W)
      → with_tls name (store w) ≡ true
      → (p.api.patch p.namespace name (replace_rules rules ∷ replace_tls_list tls ∷ []) w).0 ≡ ok tt
  pub replace_lem :
      (name : String) (rules : List IngressRule) (tls : List IngressTls) (w : W)
      → with_tls name (store w) ≡ true
      → store (p.api.patch p.namespace name (replace_rules rules ∷ replace_tls_list tls ∷ []) w).1
        ≡ map (λ i. if i.name == name then record i { rules = rules; tls = tls } else i) (store w)
  pub replace_fails :
      (name : String) (rules : List IngressRule) (tls : List IngressTls) (w : W)
      → with_tls name (store w) ≡ false
      → (e : Error) × ((p.api.patch p.namespace name
            (replace_rules rules ∷ replace_tls_list tls ∷ [])
            w).0
          ≡ err e)
        × (store
              (p.api.patch p.namespace name (replace_rules rules ∷ replace_tls_list tls ∷ []) w).1
            ≡ store w)

-- The Ingress keeps a rule and loses a rule.
abbrev pub SplitUp : IngressMapper → List String → Ingress → Type 0
SplitUp mapper ids ing =
    (any (condemned mapper ids ing) ing.rules ≡ true)
    × (filter (λ r. not (condemned mapper ids ing r)) ing.rules ≢ [])

-- An Ingress that is to be patched has TLS entries.
abbrev pub Patchable : IngressMapper → List String → Ingress → Type 0
Patchable mapper ids ing = SplitUp mapper ids ing → is_empty ing.tls ≡ false

pub filled : {A : Type 0} (l : List A) → is_empty l ≡ false → l ≢ []
filled [] h e = cc
filled (x ∷ l) h e = cc

pub filled_eq : {A : Type 0} (l : List A) → l ≢ [] → is_empty l ≡ false
filled_eq [] h = absurd (h refl)
filled_eq (x ∷ l) h = refl

module _ (pre : List Ingress) (ing : Ingress) (rest : List Ingress) where
  pub with_tls_at : is_empty ing.tls ≡ false → with_tls ing.name (pre ++ ing ∷ rest) ≡ true
  with_tls_at full = ground (
    arith,
    any-append (λ i. (i.name == ing.name) && not (is_empty i.tls)) pre (ing ∷ rest),
    eq_refl ing.name,
    full,
    or_true (with_tls ing.name pre),
  )

  without_tls : (n : String) (l : List Ingress) → named n l ≡ false → with_tls n l ≡ false
  without_tls n [] h = refl
  without_tls n (i ∷ l) h = ground (arith, without_tls n l)

  pub without_tls_at :
      named ing.name pre ≡ false
      → named ing.name rest ≡ false
      → is_empty ing.tls ≡ true
      → with_tls ing.name (pre ++ ing ∷ rest) ≡ false
  without_tls_at f g bare = ground (
    arith,
    any-append (λ i. (i.name == ing.name) && not (is_empty i.tls)) pre (ing ∷ rest),
    without_tls ing.name pre f,
    without_tls ing.name rest g,
    bare,
  )
