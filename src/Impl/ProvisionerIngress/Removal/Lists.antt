-- ===== src/Impl/ProvisionerIngress/Removal/Lists.antt =====
-- Lists of Ingresses with distinct names: what deleting or replacing one of them does.
use dynamic_routes_provision.Base.{
  String, ◌≡◌, refl, ◌∙◌, Bool, true, false, not, ◌||◌, List, [], ◌∷◌, ◌++◌, map, arith, ◌==◌,
  eq_refl, if◌then◌else◌, any, filter, filter-append, any-append,
}
use mathlib.Core.List.{map-append}
use dynamic_routes_provision.Impl.ProvisionerIngress.Types.{IngressRule, IngressTls, Ingress}
use dynamic_routes_provision.Impl.ProvisionerIngress.Removal.{is_empty}

abbrev pub named : String → List Ingress → Bool
named name = any (λ i. i.name == name)

-- Names are unique in a namespace.
abbrev pub Distinct : List Ingress → Type 0
Distinct [] = Unit
Distinct (i ∷ rest) = (named i.name rest ≡ false) × Distinct rest

-- All rules that are stored, in order.
abbrev pub rules_in : List Ingress → List IngressRule
rules_in [] = []
rules_in (i ∷ rest) = i.rules ++ rules_in rest

pub or_true : (a : Bool) → (a || true) ≡ true
or_true a = ground arith

pub filter_fresh :
    (n : String) (l : List Ingress) → named n l ≡ false → filter (λ i. not (i.name == n)) l ≡ l
filter_fresh n [] h = refl
filter_fresh n (i ∷ rest) h = ground (arith, filter_fresh n rest)

pub replace_fresh :
    (n : String) (rules : List IngressRule) (tls : List IngressTls) (l : List Ingress)
    → named n l ≡ false
    → map (λ i. if i.name == n then record i { rules = rules; tls = tls } else i) l ≡ l
replace_fresh n rules tls [] h = refl
replace_fresh n rules tls (i ∷ rest) h = ground (arith, replace_fresh n rules tls rest)

abbrev pub rewrite : String → List IngressRule → List IngressTls → Ingress → Ingress
rewrite n rules tls i = if i.name == n then record i { rules = rules; tls = tls } else i

module _ (pre : List Ingress) (ing : Ingress) (rest : List Ingress) where
  pub named_at : named ing.name (pre ++ ing ∷ rest) ≡ true
  named_at = ground (
    arith,
    any-append (λ i. i.name == ing.name) pre (ing ∷ rest),
    eq_refl ing.name,
    or_true (named ing.name pre),
  )

  pub delete_at :
      named ing.name pre ≡ false
      → named ing.name rest ≡ false
      → filter (λ i. not (i.name == ing.name)) (pre ++ ing ∷ rest) ≡ pre ++ rest
  delete_at f g = filter-append (λ i. not (i.name == ing.name)) pre (ing ∷ rest) ∙ (λ i.
      filter_fresh ing.name pre f i
      ++ (if not (eq_refl ing.name i)
          then ing ∷ filter (λ x. not (x.name == ing.name)) rest
          else filter_fresh ing.name rest g i))

  pub replace_at :
      (rules : List IngressRule) (tls : List IngressTls)
      → named ing.name pre ≡ false
      → named ing.name rest ≡ false
      → map (rewrite ing.name rules tls) (pre ++ ing ∷ rest)
        ≡ pre ++ record ing { rules = rules; tls = tls } ∷ rest
  replace_at rules tls f g = map-append (rewrite ing.name rules tls) pre (ing ∷ rest) ∙ (λ i.
      replace_fresh ing.name rules tls pre f i
      ++ (if eq_refl ing.name i then record ing { rules = rules; tls = tls } else ing)
        ∷ replace_fresh ing.name rules tls rest g i)

pub filter_kept :
    (c : IngressRule → Bool) (l : List IngressRule)
    → any c l ≡ false
    → filter (λ r. not (c r)) l ≡ l
filter_kept c [] h = refl
filter_kept c (r ∷ rest) h = ground (arith, filter_kept c rest)

pub empty-nil : (l : List IngressRule) → is_empty l ≡ true → l ≡ []
empty-nil [] h = refl
empty-nil (x ∷ l) h = cc
