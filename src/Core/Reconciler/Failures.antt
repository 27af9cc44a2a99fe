-- ===== src/Core/Reconciler/Failures.antt =====
-- The error paths of `Reconcile`: a list that cannot be read, and an issuer without certificates.
use dynamic_routes_provision.Base.{
  String, ◌≡◌, refl, ap, ◌∙◌, Bool, true, false, none, List, [], ◌∷◌, arith, any, ◌⊎◌, Bool-cases,
  inl, inr,
}
use dynamic_routes_provision.Core.Result.{Result, ok, err, panic, Error, Action, pure, ◌>>=◌}
use dynamic_routes_provision.Core.Route.{RouteRequest, ProvisionedRoute}
use dynamic_routes_provision.Core.Interfaces.{Certs}
use dynamic_routes_provision.Core.Reconciler.{
  Reconciler, remove_stale, keep_cert, issue_one, issue_all, apply_diff, reconcile,
}
use dynamic_routes_provision.Core.Reconciler.Diff.{missing, diff-eq-filter}

abbrev pub needs_cert : List RouteRequest → Bool
needs_cert = any (λ d. d.tls)

module _ {W : Type 0} (r : Reconciler W) where
  -- Steps 1 and 2: the two lists that a cycle compares.
  unfoldable pub read_both : Action W (List RouteRequest × List ProvisionedRoute)
  read_both = do ds ← r.desired.list; actual ← r.provisioner.list; pure (ds, actual)

  -- When the desired state or the gateway's routes cannot be read, a cycle returns that error, and
  -- no route is removed or added and no certificate is issued: the world is as reading left it.
  pub reconcile-unreadable :
      (w : W) {e : Error} → (read_both w).0 ≡ err e → reconcile r w ≡ (err e, (read_both w).1)
  unfolding reconcile read_both
  reconcile-unreadable w h = ground arith

module _ {W : Type 0} (r : Reconciler W)
    (nil : (d : RouteRequest) (w : W) → (r.issuer.issue d w).0 ≡ ok none) where
  issue_one-nil :
      (d : RouteRequest) (certs : Certs) (w : W)
      → d.tls ≡ true
      → (issue_one r.issuer d certs w).0 ≡ panic
  unfolding issue_one keep_cert
  issue_one-nil d certs w on = ground (arith, nil d w)

  issue_one-plain :
      (d : RouteRequest) (certs : Certs) (w : W)
      → d.tls ≡ false
      → issue_one r.issuer d certs w ≡ (ok certs, w)
  unfolding issue_one keep_cert
  issue_one-plain d certs w off = ground arith

  issue_all-nil :
      (ds : List RouteRequest) (certs : Certs) (w : W)
      → needs_cert ds ≡ true
      → (issue_all r.issuer ds certs w).0 ≡ panic
  unfolding issue_all
  issue_all-nil [] certs w h = cc
  issue_all-nil (d ∷ rest) certs w h = elim (Bool-cases d.tls) [
    | inl on ↦ ground (arith, issue_one-nil d certs w on)
    | inr off ↦
        let ih = issue_all-nil rest certs w (ground arith) in
        ground (arith, issue_one-plain d certs w off, ih)
  ]

  -- Errors of step 4 are dropped.
  remove_stale-cases :
      (gone : List String) (w : W)
      → ((remove_stale r.provisioner gone w).0 ≡ ok tt)
        ⊎ ((remove_stale r.provisioner gone w).0 ≡ panic)
  unfolding remove_stale
  remove_stale-cases [] w = inl refl
  remove_stale-cases (x ∷ xs) w = go (r.provisioner.batch_deprovision (x ∷ xs) w).0 refl
    where
      go :
          (y : Result Unit)
          → (r.provisioner.batch_deprovision (x ∷ xs) w).0 ≡ y
          → ((remove_stale r.provisioner (x ∷ xs) w).0 ≡ ok tt)
            ⊎ ((remove_stale r.provisioner (x ∷ xs) w).0 ≡ panic)
      go (ok a) e = inl (rw e)
      go (err x') e = inl (rw e)
      go panic e = inr (rw e)

  apply_diff-nil :
      (ds : List RouteRequest) (gone : List String) (w : W)
      → needs_cert ds ≡ true
      → (apply_diff r (ds, gone) w).0 ≡ panic
  unfolding apply_diff
  apply_diff-nil ds gone w h = elim (remove_stale-cases gone w) [
    | inl done ↦ ground (arith, done, issue_all-nil ds [] (remove_stale r.provisioner gone w).1 h)
    | inr crashed ↦ ground (arith, crashed)
  ]

  -- With an issuer that returns a nil certificate and no error, a cycle in which a route with TLS is
  -- missing from the gateway panics: the certificate's issuer name is read for the log.
  pub reconcile-nil_panics :
      (ds : List RouteRequest) (actual : List ProvisionedRoute) (w : W)
      → (r.desired.list w).0 ≡ ok ds
      → (r.provisioner.list (r.desired.list w).1).0 ≡ ok actual
      → needs_cert (missing ds actual) ≡ true
      → (reconcile r w).0 ≡ panic
  unfolding reconcile
  reconcile-nil_panics ds actual w h k need =
      let w' = (r.provisioner.list (r.desired.list w).1).1 in
      rw (h, k)
        (ap (λ (x : List RouteRequest × List String). (apply_diff r x w').0)
            (diff-eq-filter ds actual)
          ∙ apply_diff-nil (missing ds actual) _ w' need)
