-- ===== src/Impl/ProvisionerLog/Gateway.antt =====
-- impl/provisioner-log/provisioner.go as a gateway (Core/Reconciler/Contract), for identifiers that each
-- stand for one host.
use dynamic_routes_provision.Base.{
  String, ◌≡◌, refl, sym, ap, ◌∙◌, Bool, not, ◌&&◌, ◌||◌, List, [], ◌∷◌, arith, ◌==◌, eq_iff, any,
  All, if_rule,
}
use mathlib.Core.Path.{fun_ext, subst}
use dynamic_routes_provision.Core.Dict.{insert, delete, values}
use dynamic_routes_provision.Core.Result.{ok}
use dynamic_routes_provision.Core.Route.{RouteRequest, ProvisionedRoute}
use dynamic_routes_provision.Core.Interfaces.{Certs, cert_for}
use dynamic_routes_provision.Core.Reconciler.Diff.{wanted, served}
use dynamic_routes_provision.Core.Reconciler.Contract.{listed, IsGateway}
use dynamic_routes_provision.Impl.ProvisionerLog.{
  Routes, route_key, log_route, list, batch_provision, batch_deprovision, log_provisioner,
}

or_left_comm : (a b c : Bool) → (a || (b || c)) ≡ ((b || a) || c)
or_left_comm a b c = ground arith

module _ (host_of : String → String) where
  -- An entry stands under its own identifier, which stands for its host.
  abbrev pub Entry : String × ProvisionedRoute → Type 0
  Entry (k, a) = (a.route_id ≡ k) × (host_of k ≡ a.host)

  abbrev pub Keyed : Routes → Type 0
  Keyed = All Entry

  abbrev pub Fits : RouteRequest → Type 0
  Fits r = host_of (route_key r) ≡ r.host

  delete-Keyed : (k : String) (m : Routes) → Keyed m → Keyed (delete k m)
  unfolding delete
  delete-Keyed k [] h = tt
  delete-Keyed k ((j, a) ∷ m) h =
      if_rule Keyed (j == k) _ _ (delete-Keyed k m h.1) (h.0, delete-Keyed k m h.1)

  any-delete :
      (p : ProvisionedRoute → Bool) (k : String) (m : Routes)
      → Keyed m
      → any p (values (delete k m)) ≡ any (λ a. not (k == a.route_id) && p a) (values m)
  unfolding delete values
  any-delete p k [] h = refl
  any-delete p k ((j, a) ∷ m) h =
      ground (arith, any-delete p k m h.1, eq_iff j k, eq_iff k a.route_id, h.0.0)

  insert-Keyed :
      (a : ProvisionedRoute) (m : Routes)
      → host_of a.route_id ≡ a.host
      → Keyed m
      → Keyed (insert a.route_id a m)
  unfolding insert
  insert-Keyed a [] own h = ((refl, own), tt)
  insert-Keyed a ((j, b) ∷ m) own h =
      if_rule Keyed (j == a.route_id) _ _ ((refl, own), h.1) (h.0, insert-Keyed a m own h.1)

  served-insert :
      (g : String) (a : ProvisionedRoute) (m : Routes)
      → host_of a.route_id ≡ a.host
      → Keyed m
      → served g (values (insert a.route_id a m)) ≡ ((a.host == g) || served g (values m))
  unfolding insert values
  served-insert g a [] own h = refl
  served-insert g a ((j, b) ∷ m) own h = ground (
    arith,
    served-insert g a m own h.1,
    eq_iff j a.route_id,
    h.0.1,
    own,
    eq_iff a.host g,
    eq_iff b.host g,
  )

  pub ids : (m : Routes) → Keyed m → All (λ a. host_of a.route_id ≡ a.host) (values m)
  unfolding values
  ids [] h = tt
  ids ((j, a) ∷ m) h = (ap host_of h.0.0 ∙ h.0.1, ids m h.1)

  pub remove_Keyed :
      (gone : List String) (m : Routes) → Keyed m → Keyed (batch_deprovision gone m).1
  unfolding batch_deprovision
  remove_Keyed [] m h = h
  remove_Keyed (id ∷ rest) m h = remove_Keyed rest (delete id m) (delete-Keyed id m h)

  pub remove_ok : (gone : List String) (m : Routes) → (batch_deprovision gone m).0 ≡ ok tt
  unfolding batch_deprovision
  remove_ok [] m = refl
  remove_ok (id ∷ rest) m = remove_ok rest (delete id m)

  any_congr :
      (p q : ProvisionedRoute → Bool)
      → ((a : ProvisionedRoute) → p a ≡ q a)
      → (l : List ProvisionedRoute) → any p l ≡ any q l
  any_congr p q e l = ap (λ (f : ProvisionedRoute → Bool). any f l) (fun_ext e)

  regroup :
      (h id i : String) (rest : Bool) (g : String)
      → (not (id == i) && ((h == g) && not rest)) ≡ ((h == g) && not ((id == i) || rest))
  regroup h id i rest g = ground arith

  pub remove_served :
      (gone : List String) (m : Routes) (h : String)
      → Keyed m
      → served h (values (batch_deprovision gone m).1)
        ≡ any (λ a. (a.host == h) && not (listed a.route_id gone)) (values m)
  unfolding batch_deprovision
  remove_served [] m h v =
      any_congr (λ a. a.host == h) (λ a. (a.host == h) && not (listed a.route_id []))
        (λ a. ground arith) (values m)
  remove_served (id ∷ rest) m h v =
      remove_served rest (delete id m) h (delete-Keyed id m v)
      ∙ any-delete (λ a. (a.host == h) && not (listed a.route_id rest)) id m v
      ∙ any_congr (λ a. not (id == a.route_id) && ((a.host == h) && not (listed a.route_id rest)))
          (λ a. (a.host == h) && not (listed a.route_id (id ∷ rest)))
          (λ a. regroup a.host id a.route_id (listed a.route_id rest) h) (values m)

  pub add_ok :
      (rs : List RouteRequest) (certs : Certs) (m : Routes)
      → (out : List ProvisionedRoute) × ((batch_provision rs certs m).0 ≡ ok out)
  unfolding batch_provision
  add_ok [] certs m = ([], refl)
  add_ok (r ∷ rest) certs m =
      let a = log_route r (cert_for r.host certs) in
      let (out, e) = add_ok rest certs (insert (route_key r) a m) in (a ∷ out, rw e)

  add_world :
      (r : RouteRequest) (rest : List RouteRequest) (certs : Certs) (m : Routes)
      → (batch_provision (r ∷ rest) certs m).1
        ≡ (batch_provision rest certs
            (insert (route_key r) (log_route r (cert_for r.host certs)) m)).1
  unfolding batch_provision
  add_world r rest certs m =
      let m' = insert (route_key r) (log_route r (cert_for r.host certs)) m in
      let (out, e) = add_ok rest certs m' in rw e

  pub add_Keyed :
      (rs : List RouteRequest) (certs : Certs) (m : Routes)
      → Keyed m
      → All Fits rs
      → Keyed (batch_provision rs certs m).1
  unfolding batch_provision
  add_Keyed [] certs m h fits = h
  add_Keyed (r ∷ rest) certs m h fits =
      let a = log_route r (cert_for r.host certs) in
      subst Keyed (sym (add_world r rest certs m))
        (add_Keyed rest certs (insert a.route_id a m) (insert-Keyed a m fits.0 h) fits.1)

  pub add_served :
      (rs : List RouteRequest) (certs : Certs) (m : Routes) (h : String)
      → Keyed m
      → All Fits rs
      → served h (values (batch_provision rs certs m).1) ≡ (wanted h rs || served h (values m))
  unfolding batch_provision
  add_served [] certs m h v fits = refl
  add_served (r ∷ rest) certs m h v fits =
      let a = log_route r (cert_for r.host certs) in
      ap (λ (w : Routes). served h (values w)) (add_world r rest certs m)
      ∙ add_served rest certs (insert a.route_id a m) h (insert-Keyed a m fits.0 v) fits.1
      ∙ ap (λ (b : Bool). wanted h rest || b) (served-insert h a m fits.0 v)
      ∙ or_left_comm (wanted h rest) (r.host == h) (served h (values m))

  -- Under identifiers that each stand for one host, the log provisioner is a gateway.
  unfoldable pub log_gateway : IsGateway log_provisioner
  unfolding list
  log_gateway = record {
    shows = values;
    Inv = Keyed;
    host_of = host_of;
    Fits = Fits;
    list_lem = λ w v. refl;
    ids = ids;
    remove_ok = λ gone w v. remove_ok gone w;
    remove_Inv = remove_Keyed;
    remove_lem = remove_served;
    add_ok = λ rs certs w v fits. add_ok rs certs w;
    add_Inv = add_Keyed;
    add_lem = add_served;
  }
