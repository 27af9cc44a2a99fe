-- ===== src/Core/Orchestrator/Events.antt =====
-- What one event does, on every branch.
use dynamic_routes_provision.Base.{
  ◌≡◌, ◌≢◌, if◌then◌else◌, refl, true, false, Option, none, arith, ◌⊎◌, inl, inr,
}
use dynamic_routes_provision.Core.Result.{Action, pure, ok, err, panic, Error}
use dynamic_routes_provision.Core.Route.{
  route_created, route_updated, route_deleted, other, RouteRequest, RouteEvent, Certificate,
  EventType,
}
use dynamic_routes_provision.Core.Orchestrator.{
  Orchestrator, send, deprovision_route, dispatch, handle_event,
}

module _ {W : Type 0} (o : Orchestrator W) where
  dispatch-ne-err :
      (t : EventType) (route : RouteRequest) (w : W) (e : Error) → (dispatch o t route w).0 ≢ err e
  unfolding dispatch
  dispatch-ne-err route_created route w e = ground arith
  dispatch-ne-err route_updated route w e = ground arith
  dispatch-ne-err route_deleted route w e = ground arith
  dispatch-ne-err (other s) route w e = cc

  send-world :
      (route : RouteRequest) (cert : Option Certificate) (w : W)
      → (send o route cert w).1 ≡ (o.provisioner.provision route cert w).1
  unfolding send
  send-world route cert w = ground arith

  abbrev pub Provisions : EventType → Type 0
  Provisions t = (t ≡ route_created) ⊎ (t ≡ route_updated)

  -- The certificate that the provisioner is given: the issuer's, or nil for a route without TLS.
  unfoldable pub certify : RouteRequest → Action W (Option Certificate)
  certify route = if route.tls then o.issuer.issue route else pure none

  -- A created or updated route whose certificate cannot be issued is not sent to the
  -- provisioner: the world is as the attempt to issue left it, and the error ends with the
  -- event.
  pub handle_event-unissued :
      (e : RouteEvent) (w : W) {x : Error}
      → Provisions e.event_type
      → (certify e.route w).0 ≡ err x
      → handle_event o e w ≡ (ok tt, (certify e.route w).1)
  unfolding handle_event certify
  handle_event-unissued e w (inl t) failed = rw t (ground arith)
  handle_event-unissued e w (inr t) failed = rw t (ground arith)

  -- A created or updated route whose certificate was issued, or that is without TLS, is sent to
  -- the provisioner: the handler leaves the world as the provisioner leaves it when it is given
  -- just that certificate, in the world that issuing left.
  pub handle_event-sends :
      (e : RouteEvent) (w w' : W) (cert : Option Certificate)
      → Provisions e.event_type
      → certify e.route w ≡ (ok cert, w')
      → ((cert ≢ none) ⊎ (e.route.tls ≡ false))
      → (handle_event o e w).1 ≡ (o.provisioner.provision e.route cert w').1
  unfolding handle_event certify
  handle_event-sends e w w' cert (inl t) issued usable = rw t (ground arith)
  handle_event-sends e w w' cert (inr t) issued usable = rw t (ground arith)

  -- With a nil certificate for a route with TLS the handler panics, before the route is provisioned.
  pub handle_event-nil_panics :
      (e : RouteEvent) (w : W)
      → Provisions e.event_type
      → e.route.tls ≡ true
      → (o.issuer.issue e.route w).0 ≡ ok none
      → handle_event o e w ≡ (panic, (o.issuer.issue e.route w).1)
  unfolding handle_event
  handle_event-nil_panics e w (inl t) on nil = rw t (ground arith)
  handle_event-nil_panics e w (inr t) on nil = rw t (ground arith)

-- A removal that succeeds.
pub handle_event-deleted :
    {W : Type 0} (o : Orchestrator W) (ev : RouteEvent) (w w' : W)
    → ev.event_type ≡ route_deleted
    → o.provisioner.deprovision ev.route.id w ≡ (ok tt, w')
    → handle_event o ev w ≡ (ok tt, w')
unfolding handle_event dispatch deprovision_route
handle_event-deleted o ev w w' deleted gone = rw (deleted, gone) refl
