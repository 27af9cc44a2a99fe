-- ===== src/Impl/CertstoreKube/Hits.antt =====
-- When a cached certificate is returned, and for which hosts.
use dynamic_routes_provision.Base.{String, ◌+◌, ◌<◌, ◌⧺◌, ◌≡◌, ◌≢◌, refl, ap, ◌∙◌, some, [], arith}
use dynamic_routes_provision.Core.Result.{ok}
use dynamic_routes_provision.Core.Route.{RouteRequest, Certificate}
use dynamic_routes_provision.Cmd.Names.{dashed, truncated, safe_name-dashed}
use dynamic_routes_provision.Impl.CertstoreKube.{
  CachingIssuer, Secret, found, not_found, secret_name, to_secret, issue, cached, if_fresh, reissue,
  store_cert, put_secret, keep,
}
use dynamic_routes_provision.Impl.CertstoreKube.Roundtrip.{
  IsClock, in_seconds, secret_to_cert-to_secret,
}

module _ {W : Type 0} (c : CachingIssuer W) (k : IsClock c.clock) where
  -- The secret of the request's host holds this certificate, which is not near its expiry.
  abbrev Holds : String → Certificate → W → Type 0
  Holds name cert w =
      (c.secrets.get name w ≡ (found (to_secret c name cert), w))
      × (cert.cert_pem ≢ [])
      × (cert.key_pem ≢ [])
      × (c.clock.now w + c.renew_before < k.seconds cert.not_after)

  issue-hit :
      (req : RouteRequest) (cert : Certificate) (w : W)
      → Holds (secret_name c req.host) cert w
      → issue c req w ≡ (ok (some (in_seconds k.seconds cert)), w)
  unfolding issue cached if_fresh
  issue-hit req cert w (here, nc, nk, fresh) =
      rw (here, secret_to_cert-to_secret c k (secret_name c req.host) cert nc nk)
        (ground (arith, fresh))

  secret_name-dashed : (host : String) → secret_name c (dashed host) ≡ secret_name c host
  unfolding secret_name
  secret_name-dashed host =
      ap (λ (s : String). truncated (c.secret_prefix ⧺ "-" ⧺ s)) (safe_name-dashed host)

  -- Where the secret of a host holds a certificate of that host, with a key and not near its
  -- expiry, a request for the host with its dots replaced by dashes is given that certificate,
  -- with the other host's name in it: the host is not compared.
  pub issue-wrong_host :
      (req : RouteRequest) (host : String) (cert : Certificate) (w : W)
      → req.host ≡ dashed host
      → cert.host ≡ host
      → Holds (secret_name c host) cert w
      → (got : Certificate) × (issue c req w ≡ (ok (some got), w)) × (got.host ≡ host)
  issue-wrong_host req host cert w named same h = (
    in_seconds k.seconds cert,
    issue-hit req cert w (rw (ap (secret_name c) named ∙ secret_name-dashed host) h),
    same,
  )

  reissue-stores :
      (req : RouteRequest) (cert : Certificate) (name : String) (w w₁ w₂ : W)
      → c.inner.issue req w ≡ (ok (some cert), w₁)
      → c.secrets.get name w₁ ≡ (not_found, w₁)
      → c.secrets.create (to_secret c name cert) w₁ ≡ (ok tt, w₂)
      → reissue c req name w ≡ (ok (some cert), w₂)
  unfolding reissue keep store_cert put_secret
  reissue-stores req cert name w w₁ w₂ issued free made = rw (issued, free, made) refl

  -- Where a secret that was created can be read, and a formatted time is parsed to its seconds:
  -- when the host has no secret, the inner issuer returns a certificate with a key and its
  -- secret can be created, the first request returns that certificate, and while it is not near
  -- its expiry a second request returns it too, with its times in seconds, and leaves the world
  -- as it was.
  pub issue-again :
      (req : RouteRequest) (cert : Certificate) (w w₁ w₂ : W)
      → ((s : Secret) (v v' : W)
          → c.secrets.create s v ≡ (ok tt, v')
          → c.secrets.get s.name v' ≡ (found s, v'))
      → c.secrets.get (secret_name c req.host) w ≡ (not_found, w)
      → c.inner.issue req w ≡ (ok (some cert), w₁)
      → c.secrets.get (secret_name c req.host) w₁ ≡ (not_found, w₁)
      → c.secrets.create (to_secret c (secret_name c req.host) cert) w₁ ≡ (ok tt, w₂)
      → cert.cert_pem ≢ []
      → cert.key_pem ≢ []
      → c.clock.now w₂ + c.renew_before < k.seconds cert.not_after
      → (issue c req w ≡ (ok (some cert), w₂))
        × (issue c req w₂ ≡ (ok (some (in_seconds k.seconds cert)), w₂))
  unfolding issue cached to_secret
  issue-again req cert w w₁ w₂ stored cold issued free made nc nk fresh = (
    rw cold (reissue-stores req cert (secret_name c req.host) w w₁ w₂ issued free made),
    issue-hit req cert w₂ (stored _ w₁ w₂ made, nc, nk, fresh),
  )
