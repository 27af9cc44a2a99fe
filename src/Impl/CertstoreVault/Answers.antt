-- ===== src/Impl/CertstoreVault/Answers.antt =====
-- impl/certstore-vault/issuer.go: what `Issue` returns, on every branch.
use dynamic_routes_provision.Base.{
  String, ◌+◌, ◌≡◌, ◌≢◌, refl, Bool, true, false, Option, none, some, ltb, if◌then◌else◌,
}
use dynamic_routes_provision.Core.Dict.{Dict}
use dynamic_routes_provision.Core.Result.{Result, ok, err, panic, pure, continue, handle}
use dynamic_routes_provision.Core.Route.{RouteRequest, Certificate}
use dynamic_routes_provision.Impl.VaultApi.{Value, Secret}
use dynamic_routes_provision.Impl.CertstoreVault.{
  CachingIssuer, secret_path, secret_to_cert, to_data, store_cert, keep, reissue, if_fresh, cached,
  issue,
}

module _ {W : Type 0} (c : CachingIssuer W) where
  -- The certificate in what was read, if there is one.
  unfoldable pub stored : Result (Option Secret) → Option Certificate
  stored (ok none) = none
  stored (ok (some none)) = none
  stored (ok (some (some fields))) = secret_to_cert c fields
  stored (err e) = none
  stored panic = none

  -- The certificate, if it is not near its expiry.
  unfoldable pub fresh : W → Option Certificate → Option Certificate
  fresh w none = none
  fresh w (some cert) =
      if ltb (c.clock.now w + c.renew_before) cert.not_after then some cert else none

  -- A fresh certificate, or what the inner issuer returned.
  unfoldable pub answer :
      Option Certificate → Result (Option Certificate) → Result (Option Certificate)
  answer (some cert) issued = ok (some cert)
  answer none issued = issued

  module _ (req : RouteRequest)
      (writes : (path : String) (fields : Dict Value) (v : W)
        → (c.logical.write path fields v).0 ≢ panic)
      (issued : (v : W) → (c.inner.issue req v).0 ≢ ok none) where
    kept :
        (r : Result (Option Secret)) (cert : Certificate) (w : W)
        → r ≢ panic
        → (handle
            (continue r (λ s. pure tt) w).0
            (λ e. pure (some cert))
            (λ u. pure (some cert))
            (continue r (λ s. pure tt) w).1).0
          ≡ ok (some cert)
    kept (ok s) cert w ne = refl
    kept (err e) cert w ne = refl
    kept panic cert w ne = absurd (ne refl)

    keep-result :
        (r : Result (Option Certificate)) (w : W)
        → r ≢ ok none
        → (continue r (keep c req.host) w).0 ≡ r
    unfolding keep store_cert
    keep-result (ok none) w ne = absurd (ne refl)
    keep-result (ok (some cert)) w ne =
        kept (c.logical.write (secret_path c req.host) (to_data c cert) w).0 cert
          (c.logical.write (secret_path c req.host) (to_data c cert) w).1
          (writes (secret_path c req.host) (to_data c cert) w)
    keep-result (err e) w ne = refl
    keep-result panic w ne = refl

    reissue-result : (w : W) → (reissue c req w).0 ≡ (c.inner.issue req w).0
    unfolding reissue
    reissue-result w = keep-result (c.inner.issue req w).0 (c.inner.issue req w).1 (issued w)

    fresh-result :
        (b : Bool) (cert : Certificate) (w : W)
        → (if b then (ok (some cert), w) else reissue c req w).0
          ≡ answer (if b then some cert else none) (c.inner.issue req w).0
    unfolding answer
    fresh-result true cert w = refl
    fresh-result false cert w = reissue-result w

    if_fresh-result :
        (o : Option Certificate) (w : W)
        → (if_fresh c req o w).0 ≡ answer (fresh w o) (c.inner.issue req w).0
    unfolding if_fresh fresh answer
    if_fresh-result none w = reissue-result w
    if_fresh-result (some cert) w =
        fresh-result (ltb (c.clock.now w + c.renew_before) cert.not_after) cert w

    read-result :
        (r : Result (Option Secret)) (w : W)
        → r ≢ panic
        → (handle r (λ e. reissue c req) (cached c req) w).0
          ≡ answer (fresh w (stored r)) (c.inner.issue req w).0
    unfolding cached stored fresh answer
    read-result (ok none) w ne = reissue-result w
    read-result (ok (some none)) w ne = reissue-result w
    read-result (ok (some (some fields))) w ne = if_fresh-result (secret_to_cert c fields) w
    read-result (err e) w ne = reissue-result w
    read-result panic w ne = absurd (ne refl)

    -- Where reading from Vault and writing to it return or fail, but do not panic, and the inner
    -- issuer never returns a nil certificate without an error: `Issue` returns the certificate that
    -- Vault holds for the host, if it can be read and is not near its expiry, and otherwise just what
    -- the inner issuer returns after the reading, its errors included, whether or not the new
    -- certificate can be stored.
    pub issue-answers :
        (w : W)
        → (c.logical.read (secret_path c req.host) w).0 ≢ panic
        → (issue c req w).0
          ≡ answer
              (fresh
                (c.logical.read (secret_path c req.host) w).1
                (stored (c.logical.read (secret_path c req.host) w).0))
              (c.inner.issue req (c.logical.read (secret_path c req.host) w).1).0
    unfolding issue
    issue-answers w readable =
        read-result (c.logical.read (secret_path c req.host) w).0
          (c.logical.read (secret_path c req.host) w).1 readable
