-- ===== src/Impl/SourceMongo/Listing.antt =====
-- impl/source-mongo/lister.go: what a listing returns.
use dynamic_routes_provision.Base.{◌≡◌, ◌≢◌, refl, Option, List, [], ◌∷◌, ◌++◌, map}
use dynamic_routes_provision.Core.Result.{
  Error, wrap, Result, ok, err, panic, Action, pure, continue, ◌>>=◌, wrapped,
}
use dynamic_routes_provision.Core.Route.{RouteRequest}
use dynamic_routes_provision.Impl.SourceMongo.{
  DocumentMapper, Collection, map_all, add_route, list_documents,
}

-- Neither a value nor a panic.
abbrev pub Fails : {A : Type 0} → Result A → Type 0
Fails r = (e : Error) × (r ≡ err e)

later-Fails :
    {W : Type 0} (r : Result (Option RouteRequest)) (rest : Action W (List RouteRequest)) (w : W)
    (e : Error)
    → r ≢ panic
    → rest w ≡ (err e, w)
    → (e' : Error) × (continue
          (wrapped "map document" r)
          (λ route. rest >>= λ routes. pure (add_route route routes))
          w
        ≡ (err e', w))
later-Fails (ok route) rest w e ne h = (e, rw h refl)
later-Fails (err x) rest w e ne h = (wrap "map document" x, refl)
later-Fails panic rest w e ne h = absurd (ne refl)

module _ {W Doc Change : Type 0} (mapper : DocumentMapper Doc Change)
    (safe : (doc : Doc) → mapper.map_document doc ≢ panic) where
  -- A document that cannot be mapped fails the listing, wherever it stands.
  map_all-Fails :
      (before : List Doc) (bad : Doc) (after : List Doc) (w : W)
      → Fails (mapper.map_document bad)
      → (e : Error) × (map_all mapper (map ok (before ++ bad ∷ after)) w ≡ (err e, w))
  unfolding map_all
  map_all-Fails [] bad after w (e, h) = (wrap "map document" e, rw h refl)
  map_all-Fails (doc ∷ before) bad after w h =
      let (e, ih) = map_all-Fails before bad after w h in
      later-Fails (mapper.map_document doc) (map_all mapper (map ok (before ++ bad ∷ after))) w e
        (safe doc) ih

  -- The listing then returns an error too, in the world that reading the collection left.
  pub list_documents-Fails :
      (c : Collection W Doc Change) (before : List Doc) (bad : Doc) (after : List Doc)
      (end : Option Error) (w w' : W)
      → c.find w ≡ (ok (record { items = map ok (before ++ bad ∷ after); end_error = end }), w')
      → Fails (mapper.map_document bad)
      → (e : Error) × (list_documents mapper c w ≡ (err e, w'))
  unfolding list_documents
  list_documents-Fails c before bad after end w w' found h =
      let (e, fails) = map_all-Fails before bad after w' h in (e, rw (found, fails) refl)
