-- ===== src/Impl/ProvisionerIngress/Removal/NoTls.antt =====
-- `BatchDeprovision` at an Ingress without TLS entries.
use dynamic_routes_provision.Base.{
  String, ◌≡◌, refl, sym, ap, ◌∙◌, true, false, not, List, [], ◌∷◌, ◌++◌, ◌⧺◌, filter, All,
}
use mathlib.Core.List.{append_assoc}
use dynamic_routes_provision.Core.Result.{Error, wrap, err}
use dynamic_routes_provision.Impl.ProvisionerIngress.Types.{
  IngressRule, Ingress, IngressProvisioner,
}
use dynamic_routes_provision.Impl.ProvisionerIngress.Patches.{
  list_managed_ingresses, apply_json_patch, replace_spec_patches,
}
use dynamic_routes_provision.Impl.ProvisionerIngress.Removal.{
  removal_set, split_ingress, keep_tls, is_empty, prune_ingress, prune_all, batch_deprovision,
}
use dynamic_routes_provision.Impl.ProvisionerIngress.Removal.Kept.{split_ingress-lem}
use dynamic_routes_provision.Impl.ProvisionerIngress.Removal.Lists.{named, Distinct, rules_in}
use dynamic_routes_provision.Impl.ProvisionerIngress.Removal.Contract.{
  IsStore, SplitUp, Patchable, filled_eq, with_tls, without_tls_at,
}
use dynamic_routes_provision.Impl.ProvisionerIngress.Removal.Store.{
  pruned, prune_list, unwanted, Apart, Apart-next, Apart-nil, prune_ingress-lem, rules_in-append,
  rules_in-prune_list,
}

module _ {W : Type 0} (p : IngressProvisioner W) (k : IsStore p) (ids : List String) where
  open k use {store}

  prune_ingress-fails :
      (pre : List Ingress) (ing : Ingress) (rest : List Ingress) (w : W)
      → store w ≡ pre ++ ing ∷ rest
      → named ing.name pre ≡ false
      → named ing.name rest ≡ false
      → SplitUp p.mapper ids ing
      → is_empty ing.tls ≡ true
      → (e : Error) × ((prune_ingress p (removal_set ids []) ing w).0
          ≡ err (wrap ("patch ingress " ⧺ ing.name) e))
        × (store (prune_ingress p (removal_set ids []) ing w).1 ≡ store w)
  unfolding prune_ingress apply_json_patch replace_spec_patches
  prune_ingress-fails pre ing rest w stored f g (some_go, some_stay) bare =
      let s = split_ingress p.mapper (removal_set ids []) ing in
      let (kept, changed) = split_ingress-lem p.mapper ids ing in
      let left = filled_eq s.keep_rules (λ e. some_stay (sym kept ∙ e)) in
      let (e, failed, same) =
        k.replace_fails ing.name s.keep_rules (keep_tls s.removed_hosts ing.tls) w
          (ap (with_tls ing.name) stored ∙ without_tls_at pre ing rest f g bare) in
      simp (changed ∙ some_go, left) (e, rw failed refl, same)

  prune_all-fails :
      (pre todo : List Ingress) (ing : Ingress) (rest : List Ingress) (w : W)
      → store w ≡ pre ++ (todo ++ ing ∷ rest)
      → Apart p k ids pre (todo ++ ing ∷ rest)
      → Distinct (todo ++ ing ∷ rest)
      → All (Patchable p.mapper ids) todo
      → SplitUp p.mapper ids ing
      → is_empty ing.tls ≡ true
      → (e : Error) × ((prune_all p (removal_set ids []) (todo ++ ing ∷ rest) w).0
          ≡ err (wrap ("patch ingress " ⧺ ing.name) e))
        × (store (prune_all p (removal_set ids []) (todo ++ ing ∷ rest) w).1
            ≡ pre ++ (prune_list p k ids todo ++ ing ∷ rest))
  unfolding prune_all
  prune_all-fails pre [] ing rest w stored apart distinct able split bare =
      let (e, failed, same) =
        prune_ingress-fails pre ing rest w stored apart.0 distinct.0 split bare in
      (e, rw failed refl, rw failed (same ∙ stored))
  prune_all-fails pre (i ∷ todo) ing rest w stored apart distinct able split bare =
      let (done, after) =
        prune_ingress-lem p k ids pre i (todo ++ ing ∷ rest) w stored apart.0 distinct.0 able.0 in
      let (e, failed, later) =
        prune_all-fails (pre ++ pruned p.mapper ids i) todo ing rest
          (prune_ingress p (removal_set ids []) i w).1
          (after ∙ sym (append_assoc pre (pruned p.mapper ids i) (todo ++ ing ∷ rest)))
          (Apart-next p k ids pre i (todo ++ ing ∷ rest) distinct.0 apart.1) distinct.1 able.1 split
          bare in
      (
        e,
        rw done failed,
        rw done (
            later
            ∙ append_assoc pre (pruned p.mapper ids i) (prune_list p k ids todo ++ ing ∷ rest)
            ∙ ap (λ (l : List Ingress). pre ++ l)
                (sym
                  (append_assoc (pruned p.mapper ids i) (prune_list p k ids todo) (ing ∷ rest)))),
      )

  -- Where the API server keeps its contract and Ingress names are unique, the first Ingress without
  -- TLS entries that keeps some rules and loses others fails a batch removal: it returns the error of
  -- the patch, the rules of that Ingress and of those after it all stay, and only those before it
  -- have lost the rules with a listed identifier.
  pub batch_deprovision-no_tls :
      (before : List Ingress) (ing : Ingress) (after : List Ingress) (w : W)
      → store w ≡ before ++ ing ∷ after
      → Distinct (before ++ ing ∷ after)
      → All (Patchable p.mapper ids) before
      → SplitUp p.mapper ids ing
      → is_empty ing.tls ≡ true
      → (e : Error) × ((batch_deprovision p ids w).0 ≡ err (wrap ("patch ingress " ⧺ ing.name) e))
        × (rules_in (store (batch_deprovision p ids w).1)
            ≡ filter (λ r. not (unwanted p k ids r)) (rules_in before) ++ rules_in (ing ∷ after))
  unfolding batch_deprovision list_managed_ingresses
  batch_deprovision-no_tls before ing after w stored distinct able split bare =
      let (e, failed, left) =
        prune_all-fails [] before ing after w stored (Apart-nil p k ids (before ++ ing ∷ after))
          distinct able split bare in
      (
        e,
        rw (k.list_lem w, stored) failed,
        rw (k.list_lem w, stored)
            (ap rules_in left
              ∙ rules_in-append p k ids (prune_list p k ids before) (ing ∷ after)
              ∙ ap (λ (l : List IngressRule). l ++ rules_in (ing ∷ after))
                  (rules_in-prune_list p k ids before)),
      )
