-- ===== src/Impl/CertstoreFile/Examples.antt =====
-- The theorems on stored certificates, at the files of one directory in memory.
use dynamic_routes_provision.Base.{
  String, ℕ, ◌≡◌, ◌≢◌, refl, sym, ap, ◌∙◌, Bool, true, Option, none, some, List, [], ◌∷◌,
  if◌then◌else◌, arith, eq_iff, eq_refl,
}
use dynamic_routes_provision.Core.Dict.{Dict, lookup, insert, lookup-insert}
use dynamic_routes_provision.Core.Result.{Result, errorf, ok, err, panic, pure}
use dynamic_routes_provision.Core.Route.{Certificate, RouteRequest}
use dynamic_routes_provision.Impl.CertstoreFile.{
  FileSystem, CertMeta, CachingIssuer, read, host_dir, issue, store, load, to_meta, write_files,
  files_of, write_ca, is_empty,
}
use dynamic_routes_provision.Impl.CertstoreFile.Roundtrip.{
  IsFileSystem, chain_of, chain_after, load-store,
}
use dynamic_routes_provision.Impl.CertstoreFile.Hits.{issue-answered_from_files}

abbrev Files : Type 0
Files = Dict (List ℕ)

abbrev content : Option (List ℕ) → Result (List ℕ)
content none = err (errorf "no such file")
content (some bs) = ok bs

-- The directory is the only one, so that a file is its name.
abbrev one_directory : FileSystem Files
one_directory = record {
  join = λ dir file. file;
  mkdir_all = λ dir w. (ok tt, w);
  write_file = λ p bs w. (ok tt, insert p bs w);
  read_file = λ p w. content (lookup p w);
  remove_all = λ p w. (ok tt, []);
}

content-safe : (o : Option (List ℕ)) → content o ≢ panic
content-safe none e = cc
content-safe (some bs) e = cc

insert-same : (p : String) (bs : List ℕ) (w : Files) → lookup p (insert p bs w) ≡ some bs
insert-same p bs w =
    lookup-insert p p bs w ∙ ap (λ (b : Bool). if b then some bs else lookup p w) (eq_refl p)

insert-other :
    (p q : String) (bs : List ℕ) (w : Files) → p ≢ q → lookup q (insert p bs w) ≡ lookup q w
insert-other p q bs w ne = let e = lookup-insert p q bs w in ground (arith, e, ne, eq_iff p q)

one_directory-IsFileSystem : IsFileSystem one_directory
one_directory-IsFileSystem = record {
  read_write = λ p bs w w' h.
      ap (λ (v : Files). content (lookup p v)) (sym (ap (λ (r : Result (Unit {0}) × Files). r.1) h))
      ∙ ap content (insert-same p bs w);
  read_other = λ p q bs w w' ne h.
      ap (λ (v : Files). content (lookup q v)) (sym (ap (λ (r : Result (Unit {0}) × Files). r.1) h))
      ∙ ap content (insert-other p q bs w ne);
  read_mkdir = λ d q w w' h.
      ap (λ (v : Files). content (lookup q v))
        (sym (ap (λ (r : Result (Unit {0}) × Files). r.1) h));
  read_safe = λ p w. content-safe (lookup p w);
  cert_key = λ d e. cc;
  cert_ca = λ d e. cc;
  cert_meta = λ d e. cc;
  key_ca = λ d e. cc;
  key_meta = λ d e. cc;
  ca_meta = λ d e. cc;
}

abbrev renewed : Certificate
renewed = record {
  host = "a.example";
  cert_pem = 1 ∷ [];
  key_pem = 2 ∷ [];
  ca_cert_pem = [];
  not_before = 0;
  not_after = 1000;
  issuer_name = "inner";
}

abbrev its_meta : CertMeta
its_meta = record { host = "a.example"; issuer_name = "inner"; not_before = 0; not_after = 1000 }

abbrev caching : CachingIssuer Files
caching = record {
  inner = record { name = "inner"; issue = λ req. pure (some renewed); revoke = λ cert. pure tt };
  files = one_directory;
  codec = record { marshal = λ m. ok (9 ∷ []); unmarshal = λ bs. ok its_meta };
  now = λ w. 0;
  dir = ".certs";
  renew_before = 30;
}

-- An earlier certificate has left its chain.
abbrev earlier : Files
earlier = ("cert.pem", 5 ∷ []) ∷ ("ca.pem", 7 ∷ []) ∷ []

abbrev later : Files
later = ("cert.pem", 1 ∷ []) ∷ ("ca.pem", 7 ∷ []) ∷ ("key.pem", 2 ∷ []) ∷ ("meta.json", 9 ∷ []) ∷ []

load-store_example :
    load caching ".certs/a.example" later ≡ (ok (record renewed { ca_cert_pem = 7 ∷ [] }), later)
unfolding to_meta chain_after chain_of lookup store files_of write_files write_ca is_empty insert
load-store_example =
    load-store caching one_directory-IsFileSystem ".certs/a.example" renewed earlier later
      (λ bs h. refl) refl

abbrev its_request : RouteRequest
its_request = record {
  id = "r1";
  host = "a.example";
  path = "/";
  backends = [];
  tls = true;
  metadata = [];
  created_at = 0;
}

issue-answered_from_files_example :
    (issue caching its_request earlier ≡ (ok (some renewed), later))
    × (issue caching its_request later
        ≡ (ok (some (record renewed { ca_cert_pem = 7 ∷ [] })), later))
unfolding to_meta chain_after chain_of lookup store files_of write_files write_ca is_empty insert
    load read host_dir
issue-answered_from_files_example =
    issue-answered_from_files caching its_request (err (errorf "no such file")) renewed earlier
      earlier later one_directory-IsFileSystem (λ bs h. refl) refl tt refl refl (omega arith)
