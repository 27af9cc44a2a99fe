-- ===== src/Impl/ProvisionerIngress/Removal.antt =====
-- `BatchDeprovision` of impl/provisioner-ingress/provisioner.go.
pub mod Kept
pub mod Lists
pub mod Contract
pub mod Store
pub mod NoTls
use dynamic_routes_provision.Base.{
  String, ◌⧺◌, Bool, true, false, not, List, [], ◌∷◌, ◌++◌, if◌then◌else◌, filter,
}
use dynamic_routes_provision.Core.Dict.{Dict, insert, has}
use dynamic_routes_provision.Core.Result.{Action, pure, ◌>>=◌, ◌>>◌, wrapping}
use dynamic_routes_provision.Impl.ProvisionerIngress.Types.{
  IngressRule, IngressTls, Ingress, IngressMapper, IngressProvisioner,
}
use dynamic_routes_provision.Impl.ProvisionerIngress.Patches.{
  list_managed_ingresses, apply_json_patch, delete_ingress, replace_spec_patches,
}

-- The map from each identifier to true.
unfoldable pub removal_set : List String → Dict (Unit {0}) → Dict (Unit {0})
removal_set [] to_remove = to_remove
removal_set (id ∷ rest) to_remove = removal_set rest (insert id tt to_remove)

-- `keepRules`, `removedHosts` and `changed`.
pub record Split : Type 0 where
  pub keep_rules : List IngressRule
  pub removed_hosts : Dict (Unit {0})
  pub changed : Bool

unfoldable pub split_rules : IngressMapper → Dict (Unit {0}) → List IngressRule → Split → Split
split_rules mapper to_remove [] s = s
split_rules mapper to_remove (rule ∷ rest) s = split_rules mapper to_remove rest (
    if has (mapper.extract_route_id rule) to_remove
    then record s { removed_hosts = insert rule.host tt s.removed_hosts; changed = true }
    else record s { keep_rules = s.keep_rules ++ rule ∷ [] })

abbrev pub is_empty {ℓ} : {A : Type ℓ} → List A → Bool
is_empty [] = true
is_empty (x ∷ xs) = false

-- `keepTLS`: the entries without the removed hosts, but those with no host left.
unfoldable pub keep_tls : Dict (Unit {0}) → List IngressTls → List IngressTls
keep_tls removed_hosts [] = []
keep_tls removed_hosts (tls ∷ rest) =
    let hosts = filter (λ h. not (has h removed_hosts)) tls.hosts in
    let later = keep_tls removed_hosts rest in
    if is_empty hosts then later else record tls { hosts = hosts } ∷ later

unfoldable pub split_ingress : IngressMapper → Dict (Unit {0}) → Ingress → Split
unfolding split_rules
split_ingress mapper to_remove ing =
    split_rules mapper to_remove ing.rules
      (record { keep_rules = []; removed_hosts = []; changed = false })

module _ {W : Type 0} (p : IngressProvisioner W) where
  -- The body of the loop over the Ingresses.
  unfoldable pub prune_ingress : Dict (Unit {0}) → Ingress → Action W (Unit {0})
  prune_ingress to_remove ing =
      let s = split_ingress p.mapper to_remove ing in
      if not s.changed
      then pure tt
      else if is_empty s.keep_rules
      then delete_ingress p ing.name
      else wrapping ("patch ingress " ⧺ ing.name) (
          apply_json_patch p ing.name
            (replace_spec_patches s.keep_rules (keep_tls s.removed_hosts ing.tls)))

  pub prune_all : Dict (Unit {0}) → List Ingress → Action W (Unit {0})
  prune_all to_remove [] = pure tt
  prune_all to_remove (ing ∷ rest) = prune_ingress to_remove ing >> prune_all to_remove rest

  pub batch_deprovision : List String → Action W (Unit {0})
  batch_deprovision route_ids = do
    ingresses ← list_managed_ingresses p
    prune_all (removal_set route_ids []) ingresses
