-- ===== src/Core/Reconciler/Contract.antt =====
-- What a cycle relies on: the contract of a gateway (`RouteProvisioner`), which the provisioners'
-- own modules fill, and of an issuer.
use dynamic_routes_provision.Base.{
  String, ◌≡◌, ◌≢◌, Bool, not, ◌&&◌, ◌||◌, none, List, ◌==◌, any, All,
}
use dynamic_routes_provision.Core.Result.{ok, panic}
use dynamic_routes_provision.Core.Route.{RouteRequest, ProvisionedRoute}
use dynamic_routes_provision.Core.Interfaces.{Issuer, RouteProvisioner, Certs}
use dynamic_routes_provision.Core.Reconciler.Diff.{wanted, served}

abbrev pub listed : String → List String → Bool
listed id = any (λ j. j == id)

-- `shows` is what the gateway serves, `host_of` the host that a route identifier stands for, and
-- `Fits` holds of the requests whose identifier stands for their own host.
pub record IsGateway {W : Type 0} (p : RouteProvisioner W) : Type 1 where
  pub shows : W → List ProvisionedRoute
  pub Inv : W → Type 0
  pub host_of : String → String
  pub Fits : RouteRequest → Type 0
  pub list_lem : (w : W) → Inv w → p.list w ≡ (ok (shows w), w)
  pub ids : (w : W) → Inv w → All (λ a. host_of a.route_id ≡ a.host) (shows w)
  pub remove_ok : (gone : List String) (w : W) → Inv w → (p.batch_deprovision gone w).0 ≡ ok tt
  pub remove_Inv : (gone : List String) (w : W) → Inv w → Inv (p.batch_deprovision gone w).1
  pub remove_lem :
      (gone : List String) (w : W) (h : String)
      → Inv w
      → served h (shows (p.batch_deprovision gone w).1)
        ≡ any (λ a. (a.host == h) && not (listed a.route_id gone)) (shows w)
  pub add_ok :
      (rs : List RouteRequest) (certs : Certs) (w : W)
      → Inv w
      → All Fits rs
      → (out : List ProvisionedRoute) × ((p.batch_provision rs certs w).0 ≡ ok out)
  pub add_Inv :
      (rs : List RouteRequest) (certs : Certs) (w : W)
      → Inv w
      → All Fits rs
      → Inv (p.batch_provision rs certs w).1
  pub add_lem :
      (rs : List RouteRequest) (certs : Certs) (w : W) (h : String)
      → Inv w
      → All Fits rs
      → served h (shows (p.batch_provision rs certs w).1) ≡ (wanted h rs || served h (shows w))

-- An issuer that may fail, but returns no nil certificate, does not panic, and leaves the gateway
-- alone.
pub record IsQuiet {W : Type 0} (i : Issuer W) (Inv : W → Type 0)
    (shows : W → List ProvisionedRoute) : Type 0 where
  pub no_nil : (r : RouteRequest) (w : W) → (i.issue r w).0 ≢ ok none
  pub no_panic : (r : RouteRequest) (w : W) → (i.issue r w).0 ≢ panic
  pub keeps_Inv : (r : RouteRequest) (w : W) → Inv w → Inv (i.issue r w).1
  pub keeps_shows : (r : RouteRequest) (w : W) → shows (i.issue r w).1 ≡ shows w
