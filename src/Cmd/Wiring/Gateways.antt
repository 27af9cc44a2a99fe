-- ===== src/Cmd/Wiring/Gateways.antt =====
-- cmd/routes-provisioner/main.go: the provisioner.
use dynamic_routes_provision.Base.{◌==◌, Bool, Option, none, some, if◌then◌else◌}
use dynamic_routes_provision.Core.Result.{Action, errorf, pure, raise, wrapping}
use dynamic_routes_provision.Cmd.Config.{ProvisionerConfig}
use dynamic_routes_provision.Cmd.Wiring.Parts.{
  SecretNaming, default_secret_name, store_secret_name, Store, kube_store, vault_store, file_store,
  Gateway, netscaler, ingress, log_gateway,
}

-- `kubeSecretNameFunc`, or the convention of the mapper when it is nil.
unfoldable pub secret_naming : {D : Type 0} → Option (Store D) → SecretNaming
secret_naming none = default_secret_name
secret_naming (some (kube_store client namespace secret_prefix renew_before)) =
    store_secret_name secret_prefix
secret_naming (some (vault_store address token mount prefix renew_before)) = default_secret_name
secret_naming (some (file_store dir renew_before)) = default_secret_name

-- `provingress.New` fails without a client.
unfoldable pub ingress_gateway :
    {W : Type 0} → Bool → SecretNaming → ProvisionerConfig → Action W (Option Gateway)
ingress_gateway client naming p =
    if client
    then pure (
        some (
          ingress naming p.ingress_class p.annotations p.namespace p.max_routes_per_ingress client))
    else wrapping "failed to create ingress provisioner" (
        raise (
          errorf
            "kubernetes client not configured: use WithKubeClient, WithInClusterConfig, or WithKubeConfig"))

module _ {W D : Type 0} where
  unfoldable pub gateway : Bool → Option (Store D) → ProvisionerConfig → Action W (Option Gateway)
  unfolding ingress_gateway secret_naming
  gateway client store p =
      if p.provider == "netscaler"
      then pure (some (netscaler p.endpoint p.username p.password p.insecure_skip_verify))
      else if p.provider == "ingress"
      then ingress_gateway client (secret_naming store) p
      else if p.provider == "log"
      then pure (some log_gateway)
      else pure none
