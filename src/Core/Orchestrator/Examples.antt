-- ===== src/Core/Orchestrator/Examples.antt =====
-- The theorems on the orchestrator at the gateway in memory.
use dynamic_routes_provision.Base.{String, ◌≡◌, refl, true, some, List, [], ◌∷◌, inl, arith}
use dynamic_routes_provision.Core.Dict.{values}
use dynamic_routes_provision.Core.Result.{ok, panic, pure}
use dynamic_routes_provision.Core.Route.{route_created, RouteEvent, Certificate}
use dynamic_routes_provision.Core.Interfaces.{Issuer}
use dynamic_routes_provision.Core.Reconciler.Diff.{wanted, served}
use dynamic_routes_provision.Core.Reconciler.Examples.{
  request_for, two_requests, some_routes, failing_issuer, reconciler, same_host, failing-IsQuiet,
}
use dynamic_routes_provision.Core.Orchestrator.{
  Orchestrator, Loop, looping, event, trigger_returned, tick, run, step, step_in, step_looping,
  handle_event,
}
use dynamic_routes_provision.Core.Orchestrator.Events.{
  certify, handle_event-unissued, handle_event-sends, handle_event-nil_panics,
}
use dynamic_routes_provision.Core.Orchestrator.Leading.{Moment, lost_lease, input}
use dynamic_routes_provision.Core.Orchestrator.Runs.{run-tick_converges, run-degraded}
use dynamic_routes_provision.Impl.CertNone.{none_issuer}
use dynamic_routes_provision.Impl.ProvisionerLog.{Routes, route_key, log_provisioner, list}
use dynamic_routes_provision.Impl.ProvisionerLog.Gateway.{log_gateway}

abbrev with_issuer : Issuer Routes → Orchestrator Routes
with_issuer i = record {
  issuer = i;
  provisioner = log_provisioner;
  reconciler = some reconciler;
  reconcile_interval = 60;
  trigger = true;
}

abbrev orchestrator : Orchestrator Routes
orchestrator = with_issuer failing_issuer

abbrev creation : RouteEvent
creation = record { event_type = route_created; route = request_for "c.example"; raw_data = [] }

abbrev fixed_cert : Certificate
fixed_cert = record {
  host = "c.example";
  cert_pem = 1 ∷ [];
  key_pem = 2 ∷ [];
  ca_cert_pem = [];
  not_before = 0;
  not_after = 9;
  issuer_name = "fixed";
}

abbrev fixed_issuer : Issuer Routes
fixed_issuer = record {
  name = "fixed";
  issue = λ req. pure (some fixed_cert);
  revoke = λ cert. pure tt;
}

abbrev at_start : Loop Routes
at_start = record { world = some_routes; events_open = true; status = looping }

run-tick_converges_example :
    ((run orchestrator (trigger_returned ∷ tick ∷ []) at_start).status ≡ looping)
    × ((h : String)
        → served h (values (run orchestrator (trigger_returned ∷ tick ∷ []) at_start).world)
          ≡ wanted h two_requests)
unfolding run step step_in step_looping log_gateway list route_key values
run-tick_converges_example =
    run-tick_converges orchestrator reconciler (log_gateway same_host) failing-IsQuiet refl
      (omega arith) (trigger_returned ∷ []) two_requests at_start refl refl
      ((refl, refl), ((refl, refl), tt)) (refl, (refl, tt))

run-degraded_example :
    run orchestrator (event creation ∷ trigger_returned ∷ event creation ∷ tick ∷ []) at_start
    ≡ run orchestrator (event creation ∷ trigger_returned ∷ tick ∷ []) at_start
run-degraded_example =
    run-degraded orchestrator (event creation ∷ []) (event creation ∷ tick ∷ []) at_start

handle_event-unissued_example :
    handle_event orchestrator creation some_routes ≡ (ok tt, some_routes)
unfolding certify
handle_event-unissued_example =
    handle_event-unissued orchestrator creation some_routes (inl refl) refl

handle_event-sends_example :
    (handle_event (with_issuer fixed_issuer) creation some_routes).1
    ≡ (log_provisioner.provision (request_for "c.example") (some fixed_cert) some_routes).1
unfolding certify
handle_event-sends_example =
    handle_event-sends (with_issuer fixed_issuer) creation some_routes some_routes (some fixed_cert)
      (inl refl) refl (inl (λ e. cc))

handle_event-nil_panics_example :
    handle_event (with_issuer none_issuer) creation some_routes ≡ (panic, some_routes)
handle_event-nil_panics_example =
    handle_event-nil_panics (with_issuer none_issuer) creation some_routes (inl refl) refl refl

-- An event before the instance is the leader.
abbrev before_leading : List Moment
before_leading = input (event creation) ∷ lost_lease ∷ []
