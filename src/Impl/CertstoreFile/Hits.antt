-- ===== src/Impl/CertstoreFile/Hits.antt =====
-- impl/certstore-file/issuer.go: when `Issue` is answered from the files.
use dynamic_routes_provision.Base.{◌+◌, ◌<◌, ◌≤◌, ◌≡◌, refl, ◌∙◌, some, arith}
use dynamic_routes_provision.Core.Result.{Result, ok, err, panic}
use dynamic_routes_provision.Core.Route.{RouteRequest, Certificate}
use dynamic_routes_provision.Impl.CertstoreFile.{
  CachingIssuer, host_dir, to_meta, store, load, keep, reissue, if_fresh, issue,
}
use dynamic_routes_provision.Impl.CertstoreFile.Roundtrip.{
  IsFileSystem, Decodes, chain_of, chain_after, load-store,
}

module _ {W : Type 0} (c : CachingIssuer W) where
  -- What was loaded cannot be used: an error, or a certificate that is near its expiry.
  abbrev pub Missed : Result Certificate → W → Type 0
  Missed (ok cached) w = cached.not_after ≤ c.now w + c.renew_before
  Missed (err e) w = Unit
  Missed panic w = ⊥

  issue-hit :
      (req : RouteRequest) (cached : Certificate) (w : W)
      → load c (host_dir c req.host) w ≡ (ok cached, w)
      → c.now w + c.renew_before < cached.not_after
      → issue c req w ≡ (ok (some cached), w)
  unfolding issue if_fresh
  issue-hit req cached w here fresh = rw here (ground (arith, fresh))

  issue-miss :
      (req : RouteRequest) (r : Result Certificate) (w : W)
      → load c (host_dir c req.host) w ≡ (r, w)
      → Missed r w
      → issue c req w ≡ reissue c req (host_dir c req.host) w
  unfolding issue if_fresh
  issue-miss req (ok cached) w here stale = rw here (ground (arith, stale))
  issue-miss req (err e) w here stale = rw here refl
  issue-miss req panic w here stale = absurd stale

  reissue-stores :
      (req : RouteRequest) (cert : Certificate) (w w₁ w₂ : W)
      → c.inner.issue req w ≡ (ok (some cert), w₁)
      → store c (host_dir c req.host) (some cert) w₁ ≡ (ok tt, w₂)
      → reissue c req (host_dir c req.host) w ≡ (ok (some cert), w₂)
  unfolding reissue keep
  reissue-stores req cert w w₁ w₂ issued stored = rw (issued, stored) refl

  -- Where files keep what was written to them and the certificate's metadata is decoded to what
  -- was encoded: when what a host's directory holds cannot be loaded or is near its expiry, and
  -- the inner issuer returns a certificate that is stored without an error, a request for the host
  -- returns that certificate. While it is not near its expiry, the next request is answered from
  -- the files and changes nothing: it returns the same certificate, but for an empty chain, in
  -- whose place stands the chain that the directory held before.
  pub issue-answered_from_files :
      (req : RouteRequest) (r : Result Certificate) (cert : Certificate) (w w₁ w₂ : W)
      → IsFileSystem c.files
      → Decodes c.codec (to_meta c cert)
      → load c (host_dir c req.host) w ≡ (r, w)
      → Missed r w
      → c.inner.issue req w ≡ (ok (some cert), w₁)
      → store c (host_dir c req.host) (some cert) w₁ ≡ (ok tt, w₂)
      → c.now w₂ + c.renew_before < cert.not_after
      → (issue c req w ≡ (ok (some cert), w₂))
        × (issue c req w₂ ≡ (
          ok (
              some (record cert {
                ca_cert_pem =
                    chain_after cert.ca_cert_pem (
                      chain_of
                        (c.files.read_file (c.files.join (host_dir c req.host) "ca.pem") w₁));
              })),
          w₂,
        ))
  issue-answered_from_files req r cert w w₁ w₂ files codec before missed issued stored fresh = (
    issue-miss req r w before missed ∙ reissue-stores req cert w w₁ w₂ issued stored,
    issue-hit req _ w₂ (load-store c files (host_dir c req.host) cert w₁ w₂ codec stored) fresh,
  )
