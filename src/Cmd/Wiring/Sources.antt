-- ===== src/Cmd/Wiring/Sources.antt =====
-- cmd/routes-provisioner/main.go: the trigger and the desired state. The server of the HTTP source
-- runs in a goroutine of its own and is left out.
use dynamic_routes_provision.Base.{◌==◌, true, false, none, some, List, [], ◌∷◌, if◌then◌else◌}
use dynamic_routes_provision.Core.Result.{Action, pure, ◌>>=◌, ◌>>◌, wrapping}
use dynamic_routes_provision.Cmd.Config.{DatasourceConfig, CollectionConfig, mongo_collections}
use dynamic_routes_provision.Cmd.Wiring.Parts.{
  Env, Collection, Source, mongo, composite, http, Sources,
}

unfoldable pub to_collection : DatasourceConfig → CollectionConfig → Collection
to_collection d c = record {
  database = d.database;
  collection = c.collection;
  mapper = record {
    url_field = c.mapper.url_field;
    path = c.mapper.path;
    tls = c.mapper.tls;
    backends = c.mapper.backends;
  };
}

-- One collection is used as it is, several as a composite.
unfoldable pub combine : List Collection → Source
combine [] = composite []
combine (c ∷ []) = mongo c
combine (c ∷ c' ∷ cs) = composite (c ∷ c' ∷ cs)

module _ {W D : Type 0} (e : Env W D) where
  -- The loop over the collections, at the client that was made.
  unfoldable pub open_collections :
      DatasourceConfig → List CollectionConfig → Action W (List Collection)
  unfolding to_collection
  open_collections d [] = pure []
  open_collections d (c ∷ cs) = do
    e.mongo_database true d.database
    rest ← open_collections d cs
    pure (to_collection d c ∷ rest)

  unfoldable pub mongo_sources : DatasourceConfig → Action W Sources
  unfolding open_collections combine mongo_collections
  mongo_sources d = do
    wrapping "failed to connect to mongodb" (e.connect_mongo d.uri)
    cols ← open_collections d (mongo_collections d)
    let source = combine cols
    pure (record { trig = some source; desired_state = some source; mongo_client = true })

  unfoldable pub sources : DatasourceConfig → Action W Sources
  unfolding mongo_sources
  sources d =
      if d.provider == "mongodb"
      then mongo_sources d
      else if d.provider == "http"
      then pure (record { trig = some http; desired_state = some http; mongo_client = false })
      else pure (record { trig = none; desired_state = none; mongo_client = false })
