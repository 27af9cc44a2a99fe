-- ===== src/Cmd/MongoMapper/Agreement.antt =====
-- The two readings of a document, by its change and by the listing of the collection, and what
-- becomes of a deletion.
use package.text.Mathlib.Text.{starts_with}
use dynamic_routes_provision.Base.{
  String, ℕ, ◌≡◌, ◌≢◌, refl, ap, ◌∙◌, false, Option, none, some, List, [], eq_iff, arith, ◌==◌,
  Bool, true, Bool-cases, inl, inr, sym, if◌then◌else◌,
}
use mathlib.Core.Option.{some-injective}
use dynamic_routes_provision.Core.Result.Rules.{ok-injective}
use dynamic_routes_provision.Core.Result.{Result, ok, err, panic, Action}
use dynamic_routes_provision.Core.Route.{EventType, route_deleted, RouteRequest, RouteEvent}
use dynamic_routes_provision.Core.Orchestrator.{Orchestrator, handle_event}
use dynamic_routes_provision.Core.Orchestrator.Events.{handle_event-deleted}
use dynamic_routes_provision.Impl.ProvisionerIngress.Types.{Ingress, IngressProvisioner}
use dynamic_routes_provision.Impl.ProvisionerIngress.Patches.{list_managed_ingresses}
use dynamic_routes_provision.Impl.ProvisionerIngress.Single.{deprovision}
use dynamic_routes_provision.Cmd.IngressMapper.{IngressMapper, to_ingress_mapper}
use dynamic_routes_provision.Cmd.IngressMapper.Identity.{deprovision-document_id}
use dynamic_routes_provision.Cmd.MongoMapper.{
  text, Document, ChangeEvent, MongoMapper, shown, string_of, document_request, map_document,
  event_type_of, document_event, deletion, upsertion, map_event,
}

-- The event of a request that was read at a time.
pub stamped : ℕ → EventType → Result (Option RouteRequest) → Result (Option RouteEvent)
stamped now t (ok none) = ok none
stamped now t (ok (some req)) =
    ok (some (record { event_type = t; route = record req { created_at = now }; raw_data = [] }))
stamped now t (err e) = err e
stamped now t panic = panic

module _ (hostname : String → Result String) (m : MongoMapper) where
  event-stamped :
      (now : ℕ) (op : String) (doc : Document) (raw_url : String) (r : Result String)
      → document_event hostname m now op doc raw_url r
        ≡ stamped now (event_type_of hostname m op) (document_request hostname m doc raw_url r)
  unfolding document_event document_request stamped
  event-stamped now op doc raw_url (ok host) = elim (Bool-cases (host == "")) [
    | inl empty ↦ simp empty refl
    | inr named ↦ simp named refl
  ]
  event-stamped now op doc raw_url (err e) = refl
  event-stamped now op doc raw_url panic = refl

  upsertion-stamped :
      (now : ℕ) (op : String) (doc : Document)
      → upsertion hostname m now op (some doc)
        ≡ stamped now (event_type_of hostname m op) (map_document hostname m doc)
  unfolding upsertion map_document stamped
  upsertion-stamped now op doc =
      let raw_url = string_of (doc m.url_field) in
      elim (Bool-cases (raw_url == "")) [
        | inl empty ↦ simp empty refl
        | inr given ↦ simp given (event-stamped now op doc raw_url (hostname raw_url))
      ]

  made-host :
      (b : Bool) (host : String) (made req : RouteRequest)
      → made.host ≡ host
      → (host == "") ≡ b
      → (if b then ok none else ok (some made)) ≡ ok (some req)
      → (◌≡◌ {A = Result String} (ok host) (ok req.host)) × (req.host ≢ "")
  made-host true host made req same full h = cc
  made-host false host made req same full h =
      let e : host ≡ req.host =
        sym same ∙ ap (λ (r : RouteRequest). r.host) (some-injective _ _ (ok-injective h)) in
      (ap (λ (t : String). ok t) e, λ empty. ground (arith, full, eq_iff host "", e ∙ empty))

  request-host :
      (doc : Document) (raw_url : String) (r : Result String) (req : RouteRequest)
      → document_request hostname m doc raw_url r ≡ ok (some req)
      → (r ≡ ok req.host) × (req.host ≢ "")
  unfolding document_request
  request-host doc raw_url (ok host) req h = made-host (host == "") host _ req refl refl h
  request-host doc raw_url (err e) req h = cc
  request-host doc raw_url panic req h = cc

  given-host :
      (b : Bool) (doc : Document) (raw_url : String) (r : Result String) (req : RouteRequest)
      → (if b then ok none else document_request hostname m doc raw_url r) ≡ ok (some req)
      → (r ≡ ok req.host) × (req.host ≢ "")
  given-host true doc raw_url r req h = cc
  given-host false doc raw_url r req h = request-host doc raw_url r req h

  document-host :
      (doc : Document) (req : RouteRequest)
      → map_document hostname m doc ≡ ok (some req)
      → (hostname (string_of (doc m.url_field)) ≡ ok req.host) × (req.host ≢ "")
  unfolding map_document
  document-host doc req h =
      let raw_url = string_of (doc m.url_field) in
      given-host (raw_url == "") doc raw_url (hostname raw_url) req h

  -- A change other than a deletion, of a document that the change stream carries whole, is mapped to
  -- just the request that the listing of the collection maps the document to, but for the time of
  -- its creation, is skipped when that one skips it, and fails when that one fails; and the host of
  -- that request is the host of the document's URL, and not empty.
  pub map_event-map_document :
      (now : ℕ) (change : ChangeEvent) (doc : Document)
      → string_of change.operation_type ≢ "delete"
      → change.full_document ≡ some doc
      → (map_event hostname m now change
          ≡ stamped now
              (event_type_of hostname m (string_of change.operation_type))
              (map_document hostname m doc))
        × ((req : RouteRequest)
            → map_document hostname m doc ≡ ok (some req)
            → (hostname (string_of (doc m.url_field)) ≡ ok req.host) × (req.host ≢ ""))
  unfolding map_event
  map_event-map_document now change doc kept whole = (
    ground (
      arith,
      eq_iff (string_of change.operation_type) "delete",
      kept,
      whole,
      upsertion-stamped now (string_of change.operation_type) doc,
    ),
    document-host doc,
  )

  map_event-deletion :
      (now : ℕ) (change : ChangeEvent)
      → string_of change.operation_type ≡ "delete"
      → map_event hostname m now change ≡ ok (deletion hostname m change.document_key)
  unfolding map_event
  map_event-deletion now change deleted =
      simp ((eq_iff (string_of change.operation_type) "delete").1 deleted) refl

  -- With the application's Ingress mapper and its MongoDB mapper, and Ingresses that can be
  -- listed, the event of a deleted document whose identifier does not begin with `routes-`
  -- removes nothing: the orchestrator handles it and the world is as the listing left it,
  -- whichever routes the Ingresses hold.
  pub map_event-delete_ignored :
      {W : Type 0} (o : Orchestrator W) (p : IngressProvisioner W) (im : IngressMapper) (now : ℕ)
      (change : ChangeEvent) (key : Document) (ings : List Ingress) (w w' : W)
      → o.provisioner.deprovision ≡ deprovision p
      → p.mapper ≡ to_ingress_mapper im
      → string_of change.operation_type ≡ "delete"
      → change.document_key ≡ some key
      → starts_with (shown (key "_id")) "routes-" ≡ false
      → list_managed_ingresses p w ≡ (ok ings, w')
      → (ev : RouteEvent) × (map_event hostname m now change ≡ ok (some ev))
        × (handle_event o ev w ≡ (ok tt, w'))
  unfolding deletion
  map_event-delete_ignored o p im now change key ings w w' own mapper deleted keyed foreign listed =
      (
        record {
          event_type = route_deleted;
          route = record {
            id = shown (key "_id");
            host = "";
            path = "";
            backends = [];
            tls = false;
            metadata = [];
            created_at = 0;
          };
          raw_data = [];
        },
        map_event-deletion now change deleted
            ∙ ap (λ (k : Option Document). ok (deletion hostname m k)) keyed,
        handle_event-deleted o _ w w' refl (
            ap (λ (f : String → Action _ (Unit {0})). f (shown (key "_id")) w) own
            ∙ deprovision-document_id p im (shown (key "_id")) ings w w' mapper foreign listed),
      )
