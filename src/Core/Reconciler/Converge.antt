-- ===== src/Core/Reconciler/Converge.antt =====
-- core/reconciler/reconciler.go: what a whole cycle does to the hosts that are served.
use dynamic_routes_provision.Base.{
  String, ◌≡◌, ◌≢◌, refl, ap, ◌∙◌, not, ◌&&◌, ◌||◌, Option, none, some, List, [], ◌∷◌, arith, ◌==◌,
  if◌then◌else◌, if_rule, any, All, All-filter,
}
use dynamic_routes_provision.Core.Result.{Result, ok, err, panic, Action, pure, handle, IsOk}
use dynamic_routes_provision.Core.Result.Rules.{continue_rule}
use dynamic_routes_provision.Core.Route.{RouteRequest, ProvisionedRoute, Certificate}
use dynamic_routes_provision.Core.Interfaces.{Certs}
use dynamic_routes_provision.Core.Reconciler.{
  Reconciler, remove_stale, keep_cert, issue_one, issue_all, add_missing, apply_diff, reconcile,
}
use dynamic_routes_provision.Core.Reconciler.Diff.{wanted, served, missing, diff-eq-filter}
use dynamic_routes_provision.Core.Reconciler.Contract.{listed, IsGateway, IsQuiet}
use dynamic_routes_provision.Core.Reconciler.Stale.{
  stale_ids, stale_ids-exact, removed-served, wanted-missing, absorb, none_missing, none_stale,
}

module _ {W : Type 0} (r : Reconciler W) (g : IsGateway r.provisioner)
    (q : IsQuiet r.issuer g.Inv g.shows) where
  open g use {shows, Inv, host_of, Fits}

  handle-IsOk :
      (d : RouteRequest) (certs : Certs) (x : Result (Option Certificate)) (w : W)
      → x ≢ ok none
      → x ≢ panic
      → IsOk (handle x (λ _. pure certs) (keep_cert d certs) w).0
  unfolding keep_cert
  handle-IsOk d certs (ok none) w nil crashed = nil refl
  handle-IsOk d certs (ok (some c)) w nil crashed = tt
  handle-IsOk d certs (err e) w nil crashed = tt
  handle-IsOk d certs panic w nil crashed = crashed refl

  -- One certificate, issued or not.
  issue_one-IsOk :
      (d : RouteRequest) (certs : Certs) (w : W) → IsOk (issue_one r.issuer d certs w).0
  unfolding issue_one
  issue_one-IsOk d certs w =
      if_rule (λ (m : Action W Certs). IsOk (m w).0) d.tls _ _
        (handle-IsOk d certs (r.issuer.issue d w).0 (r.issuer.issue d w).1 (q.no_nil d w)
          (q.no_panic d w))
        tt

  issue_one-world :
      (d : RouteRequest) (certs : Certs) (w : W)
      → (issue_one r.issuer d certs w).1 ≡ (if d.tls then (r.issuer.issue d w).1 else w)
  unfolding issue_one keep_cert
  issue_one-world d certs w = ground arith

  -- What the certificates leave alone: the invariant and the routes that are shown.
  abbrev Same : W → W → Type 0
  Same w w' = Inv w' × (shows w' ≡ shows w)

  issue_one-Same :
      (d : RouteRequest) (certs : Certs) (w : W) → Inv w → Same w (issue_one r.issuer d certs w).1
  issue_one-Same d certs w v = rw issue_one-world (
      if_rule (Same w) d.tls (r.issuer.issue d w).1 w (q.keeps_Inv d w v, q.keeps_shows d w)
        (v, refl))

  issue_all-lem :
      (ds : List RouteRequest) (certs : Certs) (w : W)
      → Inv w
      → IsOk (issue_all r.issuer ds certs w).0 × Same w (issue_all r.issuer ds certs w).1
  unfolding issue_all
  issue_all-lem [] certs w v = (tt, (v, refl))
  issue_all-lem (d ∷ rest) certs w v =
      let same = issue_one-Same d certs w v in
      continue_rule (λ x. IsOk x) (Same w) (issue_one r.issuer d certs w).0
        (λ c. issue_all r.issuer rest c) (issue_one r.issuer d certs w).1 (issue_one-IsOk d certs w)
        (λ c.
          let ih = issue_all-lem rest c (issue_one r.issuer d certs w).1 same.0 in
          (ih.0, (ih.1.0, ih.1.1 ∙ same.1)))

  kept_all :
      (h : String) (as' : List ProvisionedRoute)
      → served h as' ≡ any (λ a. (a.host == h) && not (listed a.route_id [])) as'
  kept_all h [] = refl
  kept_all h (a ∷ rest) = ground (arith, kept_all h rest)

  abbrev Removed : List String → W → W → Type 0
  Removed gone w w' =
      Inv w'
      × ((h : String)
          → served h (shows w')
            ≡ any (λ a. (a.host == h) && not (listed a.route_id gone)) (shows w))

  remove_stale-lem :
      (gone : List String) (w : W)
      → Inv w
      → IsOk (remove_stale r.provisioner gone w).0
        × Removed gone w (remove_stale r.provisioner gone w).1
  unfolding remove_stale
  remove_stale-lem [] w v = (tt, (v, λ h. kept_all h (shows w)))
  remove_stale-lem (x ∷ xs) w v =
      rw (g.remove_ok (x ∷ xs) w v)
        (tt, (g.remove_Inv (x ∷ xs) w v, λ h. g.remove_lem (x ∷ xs) w h v))

  abbrev Added : List RouteRequest → W → W → Type 0
  Added ds w w' =
      Inv w' × ((h : String) → served h (shows w') ≡ (wanted h ds || served h (shows w)))

  add_missing-lem :
      (ds : List RouteRequest) (certs : Certs) (w : W)
      → Inv w
      → All Fits ds
      → ((add_missing r.provisioner ds certs w).0 ≡ ok tt)
        × Added ds w (add_missing r.provisioner ds certs w).1
  unfolding add_missing
  add_missing-lem [] certs w v fits = (refl, (v, λ h. refl))
  add_missing-lem (d ∷ ds) certs w v fits =
      let (out, e) = g.add_ok (d ∷ ds) certs w v fits in
      rw e (refl, (g.add_Inv (d ∷ ds) certs w v fits, λ h. g.add_lem (d ∷ ds) certs w h v fits))

  -- Exactly the desired hosts are served.
  abbrev Serves : List RouteRequest → W → Type 0
  Serves ds w = Inv w × ((h : String) → served h (shows w) ≡ wanted h ds)

  apply_diff-lem :
      (ds : List RouteRequest) (w : W)
      → Inv w
      → All Fits ds
      → ((apply_diff r (missing ds (shows w), stale_ids ds (shows w)) w).0 ≡ ok tt)
        × Serves ds (apply_diff r (missing ds (shows w), stale_ids ds (shows w)) w).1
  unfolding apply_diff
  apply_diff-lem ds w v fits =
      let removed = remove_stale-lem (stale_ids ds (shows w)) w v in
      let w₁ = (remove_stale r.provisioner (stale_ids ds (shows w)) w).1 in
      let issued = issue_all-lem (missing ds (shows w)) [] w₁ removed.1.0 in
      let w₂ = (issue_all r.issuer (missing ds (shows w)) [] w₁).1 in
      continue_rule (λ x. x ≡ ok tt) (Serves ds) _ _ w₁ removed.0
        (λ _.
          continue_rule (λ x. x ≡ ok tt) (Serves ds) _ _ w₂ issued.0
            (λ certs.
              let added =
                add_missing-lem (missing ds (shows w)) certs w₂ issued.1.0
                  (All-filter Fits (λ d. not (served d.host (shows w))) ds fits) in
              (
                added.0,
                (
                  added.1.0,
                  λ h.
                      added.1.1 h
                      ∙ (λ i.
                          wanted-missing h (shows w) ds i
                          || (ap (served h) issued.1.1
                                ∙ removed.1.1 h
                                ∙ removed-served ds (stale_ids ds (shows w)) h (shows w)
                                    (stale_ids-exact host_of ds (shows w) (g.ids w v)))
                              i)
                      ∙ absorb (wanted h ds) (served h (shows w)),
                ),
              )))

  module _ (ds : List RouteRequest) (w : W) (reads : r.desired.list w ≡ (ok ds, w))
      (v : Inv w) where
    -- A cycle is steps 4 to 6 on the two differences.
    reconcile-reads : reconcile r w ≡ apply_diff r (missing ds (shows w), stale_ids ds (shows w)) w
    unfolding reconcile
    reconcile-reads =
        rw (reads, g.list_lem w v)
          (ap (λ (x : List RouteRequest × List String). apply_diff r x w)
            (diff-eq-filter ds (shows w)))

    -- With a gateway that keeps its contract, and an issuer that may fail but returns no nil
    -- certificate, does not panic and leaves the gateway alone: from any state in which the
    -- gateway's invariant holds, when the source of truth is read as `ds` and the requests fit
    -- the gateway's identifiers, a cycle returns no error, keeps the invariant, and leaves
    -- exactly the hosts of `ds` served, whichever certificates could be issued.
    pub reconcile-converges :
        All Fits ds
        → ((reconcile r w).0 ≡ ok tt)
          × Inv (reconcile r w).1
          × ((h : String) → served h (shows (reconcile r w).1) ≡ wanted h ds)
    reconcile-converges fits =
        rw reconcile-reads (let done = apply_diff-lem ds w v fits in (done.0, done.1.0, done.1.1))

    -- With a gateway that keeps its contract, and an issuer that may fail but returns no nil
    -- certificate, does not panic and leaves the gateway alone: where the source of truth is
    -- read as `ds`, the gateway's invariant holds and exactly the hosts of `ds` are served
    -- already, a cycle returns no error and leaves the world just as it was.
    pub reconcile-settled :
        ((h : String) → served h (shows w) ≡ wanted h ds) → reconcile r w ≡ (ok tt, w)
    unfolding apply_diff remove_stale issue_all add_missing
    reconcile-settled same =
        rw (reconcile-reads, none_missing ds (shows w) same, none_stale ds (shows w) same)
