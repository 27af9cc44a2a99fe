-- ===== src/Impl/SourceMongo/Stream.antt =====
-- impl/source-mongo/trigger.go: what is sent of a change stream.
use dynamic_routes_provision.Base.{
  ◌≡◌, refl, ap, ◌∙◌, Option, none, some, List, [], ◌∷◌, ◌++◌, map, All,
}
use mathlib.Core.List.{append-nil}
use dynamic_routes_provision.Core.Result.{Error, wrap, Result, ok, err}
use dynamic_routes_provision.Core.Route.{RouteEvent}
use dynamic_routes_provision.Impl.SourceMongo.{
  DocumentMapper, Select, taken, Sent, stopped, deliver, on_event, on_change, forward,
}

-- The events that are not skipped.
unfoldable pub chosen : List (Option RouteEvent) → List RouteEvent
chosen [] = []
chosen (none ∷ es) = chosen es
chosen (some e ∷ es) = e ∷ chosen es

abbrev pub before : List RouteEvent → Sent → Sent
before es s = record s { events = es ++ s.events }

module _ {Doc Change : Type 0} (mapper : DocumentMapper Doc Change) where
  -- A change and what it is mapped to.
  abbrev pub Maps : Change × Option RouteEvent → Type 0
  Maps x = mapper.map_event x.0 ≡ ok x.1

  -- Changes that were decoded, and whose events the receiver takes.
  abbrev pub received : List (Change × Option RouteEvent) → List (Result (Change × Select))
  received = map (λ x. ok (x.0, taken))

  deliver-before :
      (e : Option RouteEvent) (es : List (Option RouteEvent)) (s : Sent)
      → deliver e taken (before (chosen es) s) ≡ before (chosen (e ∷ es)) s
  unfolding deliver chosen
  deliver-before none es s = refl
  deliver-before (some e) es s = refl

  forward-received :
      (xs : List (Change × Option RouteEvent)) (rest : List (Result (Change × Select)))
      (end : Option Error)
      → All Maps xs
      → forward mapper (received xs ++ rest) end
        ≡ before (chosen (map (λ x. x.1) xs)) (forward mapper rest end)
  unfolding forward on_change on_event chosen
  forward-received [] rest end h = refl
  forward-received (x ∷ xs) rest end h =
      ap
        (λ (r : Result (Option RouteEvent)).
          on_event r taken (forward mapper (received xs ++ rest) end))
        h.0
      ∙ ap (deliver x.1 taken) (forward-received xs rest end h.1)
      ∙ deliver-before x.1 (map (λ y. y.1) xs) (forward mapper rest end)

  -- A change that cannot be mapped ends the trigger with its error: the events of the changes
  -- before it were sent, in their order and without those that are skipped, and none after it.
  pub forward-stops :
      (xs : List (Change × Option RouteEvent)) (bad : Change) (s : Select)
      (rest : List (Result (Change × Select))) (end : Option Error) (e : Error)
      → All Maps xs
      → mapper.map_event bad ≡ err e
      → forward mapper (received xs ++ ok (bad, s) ∷ rest) end
        ≡ record { events = chosen (map (λ x. x.1) xs); outcome = err (wrap "map change event" e) }
  unfolding forward on_change on_event stopped
  forward-stops xs bad s rest end e h failed =
      forward-received xs (ok (bad, s) ∷ rest) end h
      ∙ ap
          (λ (r : Result (Option RouteEvent)).
            before (chosen (map (λ x. x.1) xs)) (on_event r s (forward mapper rest end)))
          failed
      ∙ ap
          (λ (es : List RouteEvent). record {
            events = es;
            outcome = err (wrap "map change event" e);
          })
          (append-nil (chosen (map (λ x. x.1) xs)))
