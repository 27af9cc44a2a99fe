-- ===== src/Cmd/MongoMapper/Examples.antt =====
-- The theorem on a document whose URL cannot be parsed, at a collection of two documents.
use dynamic_routes_provision.Base.{
  String, ◌≡◌, refl, ◌==◌, ◌≢◌, Bool, true, false, none, [], ◌∷◌, if◌then◌else◌,
}
use dynamic_routes_provision.Core.Result.{Error, errorf, Result, ok, err, panic, pure, crash}
use dynamic_routes_provision.Core.Reconciler.{Reconciler, reconcile}
use dynamic_routes_provision.Impl.SourceMongo.{Collection, mongo_desired_state}
use dynamic_routes_provision.Cmd.MongoMapper.{
  text, absent, Document, ChangeEvent, MongoMapper, string_of,
}
use dynamic_routes_provision.Cmd.MongoMapper.Unparsable.{document_mapper, reconcile-unparsable}

abbrev parse : String → Result String
parse url = if url == "http://a b" then err (errorf "invalid character") else ok url

abbrev by_url : MongoMapper
by_url = record { url_field = "url"; path = "/"; tls = true; backends = [] }

abbrev with_url : String → Document
with_url url key = if key == "url" then text url else absent

abbrev two_documents : Collection (Unit {0}) Document ChangeEvent
two_documents = record {
  find = pure (record {
    items = ok (with_url "a.example") ∷ ok (with_url "http://a b") ∷ [];
    end_error = none;
  });
  watch = pure (record { items = []; end_error = none });
}

abbrev reconciler : Reconciler (Unit {0})
reconciler = record {
  desired = record { name = "none"; list = pure [] };
  issuer = record { name = "none"; issue = λ req. pure none; revoke = λ cert. pure tt };
  provisioner = record {
    name = "none";
    provision = λ req cert. crash;
    deprovision = λ id. pure tt;
    list = pure [];
    batch_provision = λ rs certs. pure [];
    batch_deprovision = λ ids. pure tt;
  };
}

parse-safe :
    (b : Bool) (url : String) → (if b then err (errorf "invalid character") else ok url) ≢ panic
parse-safe true url h = cc
parse-safe false url h = cc

reconcile-unparsable_example :
    (e : Error) × (reconcile
        (record reconciler {
          desired = mongo_desired_state (document_mapper parse by_url 0) two_documents;
        })
        tt
      ≡ (err e, tt))
unfolding string_of
reconcile-unparsable_example =
    reconcile-unparsable parse by_url two_documents 0 reconciler (with_url "a.example" ∷ [])
      (with_url "http://a b") [] none tt tt (errorf "invalid character")
      (λ url. parse-safe (url == "http://a b") url) refl (λ h. cc) refl
