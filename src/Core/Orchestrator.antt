-- ===== src/Core/Orchestrator.antt =====
-- core/orchestrator/orchestrator.go: the handlers of one event, and the loop of `run` with the
-- goroutine of `reconcileLoop` beside it. Logging is left out, but for the fields of the certificate
-- that it reads. The mutex makes each event and each reconciliation one step, so a run is a sequence
-- of inputs: what `select` received, and the ticks of the other goroutine.
pub mod Events
pub mod Runs
pub mod Leading
pub mod Examples
use dynamic_routes_provision.Base.{
  ℕ, zero, suc, Bool, true, false, Option, none, some, List, [], ◌∷◌, if◌then◌else◌, ◌&&◌, ltb,
}
use dynamic_routes_provision.Core.Result.{Result, ok, err, panic, Action, pure, crash, try_catch}
use dynamic_routes_provision.Core.Route.{
  EventType, route_created, route_updated, route_deleted, other, RouteRequest, RouteEvent,
  Certificate,
}
use dynamic_routes_provision.Core.Interfaces.{Issuer, RouteProvisioner}
use dynamic_routes_provision.Core.Reconciler.{Reconciler, reconcile}

-- A `Reconciler` option holds the reconciler and its interval; `trigger` says whether one is set.
pub record Orchestrator (W : Type 0) : Type 0 where
  pub issuer : Issuer W
  pub provisioner : RouteProvisioner W
  pub reconciler : Option (Reconciler W)
  pub reconcile_interval : ℕ
  pub trigger : Bool

module _ {W : Type 0} where
  -- The call of the provisioner: its error is logged and dropped.
  send : Orchestrator W → RouteRequest → Option Certificate → Action W (Unit {0})
  send o route cert = try_catch (o.provisioner.provision route cert) (λ _. pure tt) (λ _. pure tt)

  -- `cert.IssuerName` is read before the route is provisioned.
  send_issued : Orchestrator W → RouteRequest → Option Certificate → Action W (Unit {0})
  unfolding send
  send_issued o route none = crash
  send_issued o route (some cert) = send o route (some cert)

  provision_route : Orchestrator W → RouteRequest → Action W (Unit {0})
  unfolding send_issued
  provision_route o route =
      if route.tls
      then try_catch (o.issuer.issue route) (λ _. pure tt) (send_issued o route)
      else send o route none

  deprovision_route : Orchestrator W → RouteRequest → Action W (Unit {0})
  deprovision_route o route =
      try_catch (o.provisioner.deprovision route.id) (λ _. pure tt) (λ _. pure tt)

  dispatch : Orchestrator W → EventType → RouteRequest → Action W (Unit {0})
  unfolding provision_route deprovision_route
  dispatch o route_created route = provision_route o route
  dispatch o route_updated route = provision_route o route
  dispatch o route_deleted route = deprovision_route o route
  dispatch o (other name) route = pure tt

  unfoldable pub handle_event : Orchestrator W → RouteEvent → Action W (Unit {0})
  unfolding dispatch
  handle_event o event = dispatch o event.event_type event.route

  -- A reconciliation whose error is logged and dropped.
  reconcile_logged : Option (Reconciler W) → Action W (Unit {0})
  reconcile_logged none = pure tt
  reconcile_logged (some r) = try_catch (reconcile r) (λ _. pure tt) pure

-- How a run stands: in its loop, returned after the context was cancelled, or ended by a panic.
pub data Status : Type 0 where
  looping returned crashed : Status

-- `events_open`: the trigger's channels are not nil.
pub record Loop (W : Type 0) : Type 0 where
  pub world : W
  pub events_open : Bool
  pub status : Status

-- What can happen next: a message on a channel of `select`, or a tick of the reconcile loop.
pub data Input : Type 0 where
  event : RouteEvent → Input
  trigger_returned : Input
  tick : Input
  cancelled : Input

module _ {W : Type 0} where
  -- A panic in either goroutine ends the process.
  settle : Loop W → Result (Unit {0}) × W → Loop W
  settle s (ok _, w) = record s { world = w }
  settle s (err _, w) = record s { world = w }
  settle s (panic, w) = record s { world = w; status = crashed }

  -- The initial reconciliation, before the loop.
  pub start : Orchestrator W → W → Loop W
  start o w =
      settle (record { world = w; events_open = o.trigger; status = looping })
        (reconcile_logged o.reconciler w)

  step_looping : Orchestrator W → Input → Loop W → Loop W
  step_looping o (event e) s = if s.events_open then settle s (handle_event o e s.world) else s
  step_looping o trigger_returned s = record s { events_open = false }
  step_looping o tick s =
      if ltb 0 o.reconcile_interval then settle s (reconcile_logged o.reconciler s.world) else s
  step_looping o cancelled s = record s { status = returned }

  step_in : Status → Orchestrator W → Input → Loop W → Loop W
  step_in looping o i s = step_looping o i s
  step_in returned o i s = s
  step_in crashed o i s = s

  pub step : Orchestrator W → Input → Loop W → Loop W
  step o i s = step_in s.status o i s

  pub run : Orchestrator W → List Input → Loop W → Loop W
  run o [] s = s
  run o (i ∷ rest) s = run o rest (step o i s)
