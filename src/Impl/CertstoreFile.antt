-- ===== src/Impl/CertstoreFile.antt =====
-- impl/certstore-file/issuer.go: an issuer that keeps the certificates of another one in files. The
-- file system with its paths, the clock and the JSON of the metadata are parameters.
pub mod Roundtrip
pub mod Hits
mod Examples
use Prim.Native.Char.{code}
use Prim.Native.String as Text
use dynamic_routes_provision.Base.{
  String, ℕ, ◌+◌, ◌⧺◌, eqb, ltb, Bool, true, false, Option, none, some, List, [], ◌∷◌,
  if◌then◌else◌,
}
use dynamic_routes_provision.Core.Result.{
  Result, ok, err, panic, Action, pure, crash, lift, ◌>>=◌, ◌>>◌, try_catch, handle, wrapping,
}
use dynamic_routes_provision.Core.Route.{RouteRequest, Certificate}
use dynamic_routes_provision.Core.Interfaces.{Issuer}

-- `join` is `filepath.Join`; a file that does not exist cannot be read.
pub record FileSystem (W : Type 0) : Type 0 where
  pub join : String → String → String
  pub mkdir_all : String → Action W (Unit {0})
  pub write_file : String → List ℕ → Action W (Unit {0})
  pub read_file : String → W → Result (List ℕ)
  pub remove_all : String → Action W (Unit {0})

pub record CertMeta : Type 0 where
  pub host : String
  pub issuer_name : String
  pub not_before : ℕ
  pub not_after : ℕ

-- `json.MarshalIndent` and `json.Unmarshal` at the type of the metadata.
pub record MetaCodec : Type 0 where
  pub marshal : CertMeta → Result (List ℕ)
  pub unmarshal : List ℕ → Result CertMeta

pub record CachingIssuer (W : Type 0) : Type 0 where
  pub inner : Issuer W
  pub files : FileSystem W
  pub codec : MetaCodec
  pub now : W → ℕ
  pub dir : String
  pub renew_before : ℕ

-- `strings.ReplaceAll(host, "*", "_wildcard_")`
wildcarded : String → String
wildcarded Text.[] = Text.[]
wildcarded (Text.◌∷◌ c s) =
    let rest = wildcarded s in if eqb (code c) b'*' then "_wildcard_" ⧺ rest else Text.◌∷◌ c rest

is_empty : List ℕ → Bool
is_empty [] = true
is_empty (b ∷ bs) = false

module _ {W : Type 0} (c : CachingIssuer W) where
  pub host_dir : String → String
  unfolding wildcarded
  host_dir host = c.files.join c.dir (wildcarded host)

  read : String → Action W (List ℕ)
  read path w = (c.files.read_file path w, w)

  -- Without a chain, no chain file is written.
  write_ca : String → List ℕ → Action W (Unit {0})
  unfolding is_empty
  write_ca dir ca =
      if is_empty ca
      then pure tt
      else wrapping "write ca.pem" (c.files.write_file (c.files.join dir "ca.pem") ca)

  pub to_meta : Certificate → CertMeta
  to_meta cert = record {
    host = cert.host;
    issuer_name = cert.issuer_name;
    not_before = cert.not_before;
    not_after = cert.not_after;
  }

  write_files : String → Certificate → Action W (Unit {0})
  unfolding write_ca to_meta
  write_files dir cert = do
    wrapping "write cert.pem" (c.files.write_file (c.files.join dir "cert.pem") cert.cert_pem)
    wrapping "write key.pem" (c.files.write_file (c.files.join dir "key.pem") cert.key_pem)
    write_ca dir cert.ca_cert_pem
    meta_bytes ← wrapping "marshal meta" (lift (c.codec.marshal (to_meta cert)))
    wrapping "write meta.json" (c.files.write_file (c.files.join dir "meta.json") meta_bytes)

  -- A nil certificate panics once the directory is made.
  files_of : String → Option Certificate → Action W (Unit {0})
  unfolding write_files
  files_of dir none = crash
  files_of dir (some cert) = write_files dir cert

  pub store : String → Option Certificate → Action W (Unit {0})
  unfolding files_of
  store dir cert = wrapping ("mkdir " ⧺ dir) (c.files.mkdir_all dir) >> files_of dir cert

  to_cert : CertMeta → List ℕ → List ℕ → List ℕ → Certificate
  to_cert meta cert_pem key_pem ca_pem = record {
    host = meta.host;
    cert_pem = cert_pem;
    key_pem = key_pem;
    ca_cert_pem = ca_pem;
    not_before = meta.not_before;
    not_after = meta.not_after;
    issuer_name = meta.issuer_name;
  }

  -- A chain file that cannot be read is no chain.
  pub load : String → Action W Certificate
  unfolding read to_cert
  load dir = do
    meta_bytes ← read (c.files.join dir "meta.json")
    meta ← lift (c.codec.unmarshal meta_bytes)
    cert_pem ← read (c.files.join dir "cert.pem")
    key_pem ← read (c.files.join dir "key.pem")
    ca_pem ← try_catch (read (c.files.join dir "ca.pem")) (λ e. pure []) pure
    pure (to_cert meta cert_pem key_pem ca_pem)

  -- An error of the store is logged and dropped.
  keep : String → Option Certificate → Action W (Option Certificate)
  unfolding store
  keep dir cert = try_catch (store dir cert) (λ e. pure cert) (λ _. pure cert)

  reissue : RouteRequest → String → Action W (Option Certificate)
  unfolding keep
  reissue req dir = c.inner.issue req >>= keep dir

  -- `time.Until(cached.NotAfter) > c.cfg.renewBefore`
  if_fresh : RouteRequest → String → Certificate → Action W (Option Certificate)
  unfolding reissue
  if_fresh req dir cached w =
      if ltb (c.now w + c.renew_before) cached.not_after
      then (ok (some cached), w)
      else reissue req dir w

  -- What cannot be loaded is issued again.
  pub issue : RouteRequest → Action W (Option Certificate)
  unfolding host_dir load reissue if_fresh
  issue req =
      let dir = host_dir req.host in try_catch (load dir) (λ e. reissue req dir) (if_fresh req dir)

  -- An error of the removal is logged or passed over.
  pub revoke : Certificate → Action W (Unit {0})
  unfolding host_dir
  revoke cert =
      try_catch (c.files.remove_all (host_dir cert.host)) (λ e. c.inner.revoke cert)
        (λ _. c.inner.revoke cert)

  abbrev pub caching_issuer : Issuer W
  caching_issuer = record { name = c.inner.name; issue = issue; revoke = revoke }
