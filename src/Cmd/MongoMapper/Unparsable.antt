-- ===== src/Cmd/MongoMapper/Unparsable.antt =====
-- The application's MongoDB mapper as the mapper of impl/source-mongo, and a document whose URL
-- cannot be parsed.
use dynamic_routes_provision.Base.{
  String, ℕ, ◌≡◌, ◌≢◌, refl, ap, ◌∙◌, ◌==◌, Bool, true, false, Option, none, List, ◌∷◌, ◌++◌, map,
  arith, eq_iff, ◌⧺◌, Bool-cases, inl, inr, if◌then◌else◌,
}
use dynamic_routes_provision.Core.Result.{Error, wrap, Result, ok, err, panic}
use dynamic_routes_provision.Core.Reconciler.{Reconciler, reconcile}
use dynamic_routes_provision.Core.Reconciler.Failures.{read_both, reconcile-unreadable}
use dynamic_routes_provision.Impl.SourceMongo.{DocumentMapper, Collection, mongo_desired_state}
use dynamic_routes_provision.Impl.SourceMongo.Listing.{Fails, list_documents-Fails}
use dynamic_routes_provision.Cmd.MongoMapper.{
  Document, ChangeEvent, MongoMapper, string_of, document_request, map_document, map_event,
}

module _ (hostname : String → Result String) (m : MongoMapper) where
  -- The mapper at a time, which the mapped events carry.
  abbrev pub document_mapper : ℕ → DocumentMapper Document ChangeEvent
  document_mapper now = record {
    map_event = map_event hostname m now;
    map_document = map_document hostname m;
  }

  unparsable :
      (b : Bool) (doc : Document) (raw_url : String) (r : Result String) (e : Error)
      → b ≡ false
      → r ≡ err e
      → Fails (if b then ok none else document_request hostname m doc raw_url r)
  unfolding document_request
  unparsable true doc raw_url r e given h = cc
  unparsable false doc raw_url (ok host) e given h = cc
  unparsable false doc raw_url (err x) e given h = (wrap ("parse url " ⧺ raw_url) x, refl)
  unparsable false doc raw_url panic e given h = cc

  safe_check :
      (b : Bool) (doc : Document) (raw_url : String) (r : Result String)
      → r ≢ panic
      → (if b then ok none else document_request hostname m doc raw_url r) ≢ panic
  unfolding document_request
  safe_check true doc raw_url r ne h = cc
  safe_check false doc raw_url (ok host) ne h = elim (Bool-cases (host == "")) [
    | inl empty ↦ cc
    | inr named ↦ cc
  ]
  safe_check false doc raw_url (err e) ne h = cc
  safe_check false doc raw_url panic ne h = ne refl

  map_document-safe :
      ((url : String) → hostname url ≢ panic)
      → (doc : Document) → map_document hostname m doc ≢ panic
  unfolding map_document
  map_document-safe safe doc =
      let raw_url = string_of (doc m.url_field) in
      safe_check (raw_url == "") doc raw_url (hostname raw_url) (safe raw_url)

  map_document-Fails :
      (doc : Document) (e : Error)
      → string_of (doc m.url_field) ≢ ""
      → hostname (string_of (doc m.url_field)) ≡ err e
      → Fails (map_document hostname m doc)
  unfolding map_document
  map_document-Fails doc e given h =
      let raw_url = string_of (doc m.url_field) in
      unparsable (raw_url == "") doc raw_url (hostname raw_url) e
        (ground (arith, given, eq_iff raw_url "")) h

  unread :
      {W : Type 0} (r : Reconciler W) (w w' : W) (e : Error)
      → r.desired.list w ≡ (err e, w')
      → read_both r w ≡ (err e, w')
  unfolding read_both
  unread r w w' e h = rw h refl

  -- Where parsing a URL never panics, one document whose URL cannot be parsed, wherever it stands
  -- among the documents of the collection, fails the cycle of a reconciler whose desired state is
  -- that collection: it returns an error, and in the world that reading the collection left, so
  -- that no route is removed or added and no certificate is issued, whatever the other documents
  -- are.
  pub reconcile-unparsable :
      {W : Type 0} (c : Collection W Document ChangeEvent) (now : ℕ) (r : Reconciler W)
      (before : List Document) (bad : Document) (after : List Document) (end : Option Error)
      (w w' : W) (e : Error)
      → ((url : String) → hostname url ≢ panic)
      → c.find w ≡ (ok (record { items = map ok (before ++ bad ∷ after); end_error = end }), w')
      → string_of (bad m.url_field) ≢ ""
      → hostname (string_of (bad m.url_field)) ≡ err e
      → (e' : Error) × (reconcile
            (record r { desired = mongo_desired_state (document_mapper now) c })
            w
          ≡ (err e', w'))
  reconcile-unparsable c now r before bad after end w w' e safe found given h =
      let (e', fails) =
        list_documents-Fails (document_mapper now) (map_document-safe safe) c before bad after end w
          w' found (map_document-Fails bad e given h) in
      let r' = record r { desired = mongo_desired_state (document_mapper now) c } in
      let both = unread r' w w' e' fails in
      (
        e',
        reconcile-unreadable r' w (ap (λ (x : Result _ × _). x.0) both)
            ∙ ap (λ (x : Result _ × _). (err e', x.1)) both,
      )
