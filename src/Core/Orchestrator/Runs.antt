-- ===== src/Core/Orchestrator/Runs.antt =====
-- Runs of the orchestrator: after its trigger has ended, after it has stopped, and over a
-- reconciliation.
use dynamic_routes_provision.Base.{
  ◌<◌, String, ◌≡◌, ◌≢◌, refl, sym, ap, ◌∙◌, false, some, List, [], ◌∷◌, ◌++◌, arith, All,
}
use dynamic_routes_provision.Core.Result.{Result, ok, err, panic}
use dynamic_routes_provision.Core.Route.{RouteRequest, RouteEvent}
use dynamic_routes_provision.Core.Reconciler.{Reconciler, reconcile}
use dynamic_routes_provision.Core.Reconciler.Diff.{wanted, served}
use dynamic_routes_provision.Core.Reconciler.Contract.{IsGateway, IsQuiet}
use dynamic_routes_provision.Core.Reconciler.Converge.{reconcile-converges}
use dynamic_routes_provision.Core.Orchestrator.{
  Orchestrator, Loop, Status, looping, returned, crashed, Input, event, trigger_returned, tick,
  cancelled, settle, handle_event, reconcile_logged, step_looping, step_in, step, run,
}

-- The inputs but for the trigger's.
abbrev pub without_trigger : List Input → List Input
without_trigger [] = []
without_trigger (event e ∷ rest) = without_trigger rest
without_trigger (trigger_returned ∷ rest) = without_trigger rest
without_trigger (tick ∷ rest) = tick ∷ without_trigger rest
without_trigger (cancelled ∷ rest) = cancelled ∷ without_trigger rest

module _ {W : Type 0} (o : Orchestrator W) where
  settle-closed :
      (s : Loop W) (x : Result (Unit {0}) × W) → (settle s x).events_open ≡ s.events_open
  unfolding settle
  settle-closed s (ok a, w) = refl
  settle-closed s (err a, w) = refl
  settle-closed s (panic, w) = refl

  step-closed : (i : Input) (s : Loop W) → s.events_open ≡ false → (step o i s).events_open ≡ false
  unfolding step step_in step_looping
  step-closed (event e) s h = ground (arith, settle-closed s (handle_event o e s.world))
  step-closed trigger_returned s h = ground arith
  step-closed tick s h = ground (arith, settle-closed s (reconcile_logged o.reconciler s.world))
  step-closed cancelled s h = ground arith

  step-event : (e : RouteEvent) (s : Loop W) → s.events_open ≡ false → step o (event e) s ≡ s
  unfolding step step_in step_looping
  step-event e s h = ground arith

  step-trigger_returned : (s : Loop W) → s.events_open ≡ false → step o trigger_returned s ≡ s
  unfolding step step_in step_looping
  step-trigger_returned s h = ground arith

  -- Without a channel of events, a run handles none.
  run-closed :
      (inputs : List Input) (s : Loop W)
      → s.events_open ≡ false
      → run o inputs s ≡ run o (without_trigger inputs) s
  unfolding run
  run-closed [] s h = refl
  run-closed (event e ∷ rest) s h = ap (run o rest) (step-event e s h) ∙ run-closed rest s h
  run-closed (trigger_returned ∷ rest) s h =
      ap (run o rest) (step-trigger_returned s h) ∙ run-closed rest s h
  run-closed (tick ∷ rest) s h = run-closed rest (step o tick s) (step-closed tick s h)
  run-closed (cancelled ∷ rest) s h =
      run-closed rest (step o cancelled s) (step-closed cancelled s h)

  step-stopped : (i : Input) (s : Loop W) → s.status ≢ looping → step o i s ≡ s
  unfolding step step_in
  step-stopped i s h = ground arith

  -- A run that has returned, or that a panic has ended, does nothing more.
  pub run-stopped : (inputs : List Input) (s : Loop W) → s.status ≢ looping → run o inputs s ≡ s
  unfolding run
  run-stopped [] s h = refl
  run-stopped (i ∷ rest) s h = ap (run o rest) (step-stopped i s h) ∙ run-stopped rest s h

  run-append : (xs ys : List Input) (s : Loop W) → run o (xs ++ ys) s ≡ run o ys (run o xs s)
  unfolding run
  run-append [] ys s = refl
  run-append (x ∷ xs) ys s = run-append xs ys (step o x s)

  run_one : (i : Input) (s : Loop W) → run o (i ∷ []) s ≡ step o i s
  unfolding run
  run_one i s = refl

  over :
      (inputs : List Input) (s : Loop W)
      → s.status ≢ looping
      → run o inputs (step o trigger_returned s)
        ≡ run o (without_trigger inputs) (step o trigger_returned s)
  over inputs s h =
      ap (run o inputs) (step-stopped trigger_returned s h)
      ∙ run-stopped inputs s h
      ∙ sym (run-stopped (without_trigger inputs) s h)
      ∙ sym (ap (run o (without_trigger inputs)) (step-stopped trigger_returned s h))

  run-looping :
      (t : Status) (inputs : List Input) (s : Loop W)
      → s.status ≡ t
      → run o inputs (step o trigger_returned s)
        ≡ run o (without_trigger inputs) (step o trigger_returned s)
  unfolding step step_in step_looping
  run-looping looping inputs s h = run-closed inputs (step o trigger_returned s) (simp h refl)
  run-looping returned inputs s h = over inputs s (λ e. cc)
  run-looping crashed inputs s h = over inputs s (λ e. cc)

  -- Whatever came before: once the trigger has returned, a run handles no event. It goes on exactly
  -- as if, of what follows, only the ticks and the cancellation of the context were there.
  pub run-degraded :
      (before inputs : List Input) (s : Loop W)
      → run o (before ++ trigger_returned ∷ inputs) s
        ≡ run o (before ++ trigger_returned ∷ without_trigger inputs) s
  unfolding run
  run-degraded before inputs s =
      run-append before (trigger_returned ∷ inputs) s
      ∙ run-looping (run o before s).status inputs (run o before s) refl
      ∙ sym (run-append before (trigger_returned ∷ without_trigger inputs) s)

  module _ (r : Reconciler W) (g : IsGateway r.provisioner) (q : IsQuiet r.issuer g.Inv g.shows)
      (has_reconciler : o.reconciler ≡ some r) (periodic : 0 < o.reconcile_interval) where
    step-tick :
        (s : Loop W)
        → s.status ≡ looping
        → (reconcile r s.world).0 ≡ ok tt
        → step o tick s ≡ record s { world = (reconcile r s.world).1 }
    unfolding step step_in step_looping settle reconcile_logged
    step-tick s on done = ground (arith, has_reconciler, periodic)

    -- With a gateway that keeps its contract, an issuer that may fail but returns no nil
    -- certificate, does not panic and leaves the gateway alone, and a positive interval: after
    -- any inputs that leave the loop running and the gateway's invariant true, the next tick of
    -- the reconcile loop makes the gateway serve exactly the hosts that the source of truth then
    -- lists, if the requests fit the gateway's identifiers, and the loop goes on, whichever
    -- events were lost or failed before.
    pub run-tick_converges :
        (inputs : List Input) (ds : List RouteRequest) (s : Loop W)
        → (run o inputs s).status ≡ looping
        → r.desired.list (run o inputs s).world ≡ (ok ds, (run o inputs s).world)
        → g.Inv (run o inputs s).world
        → All g.Fits ds
        → ((run o (inputs ++ tick ∷ []) s).status ≡ looping)
          × ((h : String) → served h (g.shows (run o (inputs ++ tick ∷ []) s).world) ≡ wanted h ds)
    run-tick_converges inputs ds s on reads v fits =
        let s' = run o inputs s in
        let done = reconcile-converges r g q ds s'.world reads v fits in
        let last : run o (inputs ++ tick ∷ []) s ≡ record s' { world = (reconcile r s'.world).1 } =
          run-append inputs (tick ∷ []) s ∙ run_one tick s' ∙ step-tick s' on done.0 in
        (
          ap (λ (t : Loop W). t.status) last ∙ on,
          λ h. ap (λ (t : Loop W). served h (g.shows t.world)) last ∙ done.2 h,
        )
