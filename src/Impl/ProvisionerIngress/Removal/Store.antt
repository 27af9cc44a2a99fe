-- ===== src/Impl/ProvisionerIngress/Removal/Store.antt =====
-- `BatchDeprovision` against the Ingresses that the API server stores.
use dynamic_routes_provision.Base.{
  String, ◌≡◌, refl, sym, ap, ◌∙◌, Bool, true, false, not, List, [], ◌∷◌, ◌++◌, map, arith, ◌==◌,
  eq_iff, if◌then◌else◌, filter, All, filter-append, any-append, Bool-cases, inl, inr,
}
use mathlib.Core.List.{append_assoc, append-nil}
use dynamic_routes_provision.Core.Result.{ok}
use dynamic_routes_provision.Core.Reconciler.Contract.{listed}
use dynamic_routes_provision.Impl.ProvisionerIngress.Types.{
  IngressRule, Ingress, IngressMapper, IngressProvisioner,
}
use dynamic_routes_provision.Impl.ProvisionerIngress.Patches.{
  list_managed_ingresses, delete_ingress, apply_json_patch, replace_spec_patches,
}
use dynamic_routes_provision.Impl.ProvisionerIngress.Removal.{
  removal_set, split_ingress, keep_tls, is_empty, prune_ingress, prune_all, batch_deprovision,
}
use dynamic_routes_provision.Impl.ProvisionerIngress.Removal.Kept.{condemned, split_ingress-lem}
use dynamic_routes_provision.Impl.ProvisionerIngress.Removal.Lists.{
  named, Distinct, rules_in, rewrite, named_at, delete_at, replace_at, filter_kept, empty-nil,
}
use dynamic_routes_provision.Impl.ProvisionerIngress.Removal.Contract.{
  with_tls, IsStore, Patchable, filled, with_tls_at,
}

-- What becomes of one Ingress, as a list of none or one.
pub pruned : IngressMapper → List String → Ingress → List Ingress
pruned mapper ids ing =
    let s = split_ingress mapper (removal_set ids []) ing in
    if not s.changed
    then ing ∷ []
    else if is_empty s.keep_rules
    then []
    else record ing { rules = s.keep_rules; tls = keep_tls s.removed_hosts ing.tls } ∷ []

-- The rules that stay of one Ingress.
rules_in-pruned :
    (mapper : IngressMapper) (ids : List String) (ing : Ingress)
    → rules_in (pruned mapper ids ing) ≡ filter (λ r. not (condemned mapper ids ing r)) ing.rules
unfolding pruned
rules_in-pruned mapper ids ing =
    let s = split_ingress mapper (removal_set ids []) ing in
    let (kept, changed) = split_ingress-lem mapper ids ing in
    elim (Bool-cases s.changed) [
      | inr same ↦
          simp (same, append-nil)
            (sym (filter_kept (condemned mapper ids ing) ing.rules (sym changed ∙ same)))
      | inl moved ↦ elim (Bool-cases (is_empty s.keep_rules)) [
        | inl none_left ↦ simp (moved, none_left) (sym (empty-nil s.keep_rules none_left) ∙ kept)
        | inr left ↦ simp (moved, left, append-nil) kept
      ]
    ]

module _ {W : Type 0} (p : IngressProvisioner W) (k : IsStore p) (ids : List String) where
  open k use {store}

  -- One Ingress in the middle of the store is pruned in place, and the others stay.
  pub prune_ingress-lem :
      (pre : List Ingress) (ing : Ingress) (rest : List Ingress) (w : W)
      → store w ≡ pre ++ ing ∷ rest
      → named ing.name pre ≡ false
      → named ing.name rest ≡ false
      → Patchable p.mapper ids ing
      → ((prune_ingress p (removal_set ids []) ing w).0 ≡ ok tt)
        × (store (prune_ingress p (removal_set ids []) ing w).1
            ≡ pre ++ (pruned p.mapper ids ing ++ rest))
  unfolding prune_ingress pruned delete_ingress apply_json_patch replace_spec_patches
  prune_ingress-lem pre ing rest w stored f g able =
      let s = split_ingress p.mapper (removal_set ids []) ing in
      let (kept, changed) = split_ingress-lem p.mapper ids ing in
      let there : named ing.name (store w) ≡ true =
        ap (named ing.name) stored ∙ named_at pre ing rest in
      elim (Bool-cases s.changed) [
        | inr same ↦ simp same (refl, stored)
        | inl moved ↦ elim (Bool-cases (is_empty s.keep_rules)) [
          | inl none_left ↦
              simp (moved, none_left, k.delete_ok ing.name w there)
                (
                  refl,
                  k.delete_lem ing.name w there
                      ∙ ap (filter (λ i. not (i.name == ing.name))) stored
                      ∙ delete_at pre ing rest f g,
                )
          | inr left ↦
              simp (moved, left)
                (let tls = keep_tls s.removed_hosts ing.tls in
                  let full : is_empty ing.tls ≡ false =
                    able (sym changed ∙ moved, λ e. filled s.keep_rules left (kept ∙ e)) in
                  let there : with_tls ing.name (store w) ≡ true =
                    ap (with_tls ing.name) stored ∙ with_tls_at pre ing rest full in
                  let done = k.replace_ok ing.name s.keep_rules tls w there in
                  (
                    rw done,
                    k.replace_lem ing.name s.keep_rules tls w there
                        ∙ ap (map (rewrite ing.name s.keep_rules tls)) stored
                        ∙ replace_at pre ing rest s.keep_rules tls f g,
                  ))
        ]
      ]

  abbrev pub prune_list : List Ingress → List Ingress
  prune_list [] = []
  prune_list (i ∷ rest) = pruned p.mapper ids i ++ prune_list rest

  -- A pruned Ingress keeps its name.
  named-pruned :
      (n : String) (i : Ingress) → (i.name == n) ≡ false → named n (pruned p.mapper ids i) ≡ false
  unfolding pruned
  named-pruned n i h = ground arith

  abbrev pub Apart : List Ingress → List Ingress → Type 0
  Apart pre = All (λ i. named i.name pre ≡ false)

  pub Apart-next :
      (pre : List Ingress) (ing : Ingress) (rest : List Ingress)
      → named ing.name rest ≡ false
      → Apart pre rest
      → Apart (pre ++ pruned p.mapper ids ing) rest
  Apart-next pre ing [] f h = tt
  Apart-next pre ing (j ∷ rest) f h = (
    ground (
      arith,
      any-append (λ x. x.name == j.name) pre (pruned p.mapper ids ing),
      named-pruned j.name ing,
      eq_iff j.name ing.name,
      eq_iff ing.name j.name,
    ),
    Apart-next pre ing rest (ground arith) h.1,
  )

  prune_all-lem :
      (pre rest : List Ingress) (w : W)
      → store w ≡ pre ++ rest
      → Apart pre rest
      → Distinct rest
      → All (Patchable p.mapper ids) rest
      → ((prune_all p (removal_set ids []) rest w).0 ≡ ok tt)
        × (store (prune_all p (removal_set ids []) rest w).1 ≡ pre ++ prune_list rest)
  unfolding prune_all
  prune_all-lem pre [] w stored apart distinct able = (refl, stored)
  prune_all-lem pre (i ∷ rest) w stored apart distinct able =
      let (done, after) = prune_ingress-lem pre i rest w stored apart.0 distinct.0 able.0 in
      let (all_done, all_after) =
        prune_all-lem (pre ++ pruned p.mapper ids i) rest
          (prune_ingress p (removal_set ids []) i w).1
          (after ∙ sym (append_assoc pre (pruned p.mapper ids i) rest))
          (Apart-next pre i rest distinct.0 apart.1) distinct.1 able.1 in
      (
        rw done all_done,
        rw done (all_after ∙ append_assoc pre (pruned p.mapper ids i) (prune_list rest)),
      )

  pub rules_in-append : (xs ys : List Ingress) → rules_in (xs ++ ys) ≡ rules_in xs ++ rules_in ys
  rules_in-append [] ys = refl
  rules_in-append (i ∷ xs) ys =
      ap (λ (l : List IngressRule). i.rules ++ l) (rules_in-append xs ys)
      ∙ sym (append_assoc i.rules (rules_in xs) (rules_in ys))

  -- Whether the identifier of a rule is to be removed.
  abbrev pub unwanted : IngressRule → Bool
  unwanted r = listed (p.mapper.extract_route_id r) ids

  pub rules_in-prune_list :
      (l : List Ingress) → rules_in (prune_list l) ≡ filter (λ r. not (unwanted r)) (rules_in l)
  rules_in-prune_list [] = refl
  rules_in-prune_list (i ∷ rest) =
      rules_in-append (pruned p.mapper ids i) (prune_list rest)
      ∙ (λ j. rules_in-pruned p.mapper ids i j ++ rules_in-prune_list rest j)
      ∙ sym (filter-append (λ r. not (unwanted r)) i.rules (rules_in rest))

  pub Apart-nil : (l : List Ingress) → Apart [] l
  Apart-nil [] = tt
  Apart-nil (i ∷ rest) = (refl, Apart-nil rest)

  -- Where the API server keeps its contract, Ingress names are unique, and each Ingress that keeps
  -- some rules and loses others has TLS entries: a batch removal succeeds, and of all the rules stored
  -- exactly those with a listed identifier are gone: the others stay, in order and as they were.
  pub batch_deprovision-rules :
      (w : W)
      → Distinct (store w)
      → All (Patchable p.mapper ids) (store w)
      → ((batch_deprovision p ids w).0 ≡ ok tt)
        × (rules_in (store (batch_deprovision p ids w).1)
            ≡ filter (λ r. not (unwanted r)) (rules_in (store w)))
  unfolding batch_deprovision list_managed_ingresses
  batch_deprovision-rules w distinct able =
      let (done, after) = prune_all-lem [] (store w) w refl (Apart-nil (store w)) distinct able in
      rw (k.list_lem w) (done, ap rules_in after ∙ rules_in-prune_list (store w))
