-- ===== src/Impl/LeaseMongo/Exclusion.antt =====
-- impl/lease-mongo/elector.go: the lease's document, by what MongoDB documents of the three operations.
use dynamic_routes_provision.Base.{
  String, ℕ, ◌+◌, ◌≤◌, ◌≡◌, ◌≢◌, refl, ap, ◌∙◌, Bool, true, false, ◌||◌, List, [], ◌∷◌, Option,
  none, some, ltb, ◌==◌, eq_iff, arith, All,
}
use dynamic_routes_provision.Core.Result.{Result, ok, err, panic, pure, continue}
use dynamic_routes_provision.Impl.LeaseMongo.{
  Filter, held_by, expired_or_held_by, Update, set_lease, set_renewed, Upsert, done, duplicate_key,
  failed, Collection, Elector, acquired, try_acquire, try_renew, release,
}

pub record Lease : Type 0 where
  pub holder : String
  pub acquired_at : ℕ
  pub renewed_at : ℕ
  pub expires_at : ℕ

-- Whether a document is one that a filter selects.
abbrev pub matches : Filter → Lease → Bool
matches (held_by identity) d = d.holder == identity
matches (expired_or_held_by now identity) d = ltb d.expires_at now || (d.holder == identity)

abbrev pub set : Update → Lease → Lease
set (set_lease holder acquired renewed expires) d = record {
  holder = holder;
  acquired_at = acquired;
  renewed_at = renewed;
  expires_at = expires;
}
set (set_renewed renewed expires) d = record d { renewed_at = renewed; expires_at = expires }

-- The document that an upsert leaves: `$set` on the selected document, or on a new one.
abbrev pub upserted : Update → Option Lease → Lease
upserted u (some d) = set u d
upserted u none = set u (record { holder = ""; acquired_at = 0; renewed_at = 0; expires_at = 0 })

-- What the server does to the document of an `_id`: a call never changes a document that its filter
-- does not select, where an upsert fails on the `_id` that is taken; an upsert that reports success
-- was carried out. Of a call that reports an error nothing more is said.
pub record IsCollection {W : Type 0} (c : Collection W) : Type 0 where
  pub doc : String → W → Option Lease
  pub upsert_taken :
      (id : String) (f : Filter) (u : Update) (w : W) (d : Lease)
      → doc id w ≡ some d
      → matches f d ≡ false
      → ((c.find_one_and_upsert id f u w).0 ≢ done)
        × (doc id (c.find_one_and_upsert id f u w).1 ≡ doc id w)
  pub upsert_done :
      (id : String) (f : Filter) (u : Update) (w : W)
      → (c.find_one_and_upsert id f u w).0 ≡ done
      → doc id (c.find_one_and_upsert id f u w).1 ≡ some (upserted u (doc id w))
  pub update_doc :
      (id : String) (f : Filter) (u : Update) (w : W) (d : Lease)
      → doc id w ≡ some d
      → matches f d ≡ false
      → doc id (c.update_one id f u w).1 ≡ doc id w
  pub delete_doc :
      (id : String) (f : Filter) (w : W) (d : Lease)
      → doc id w ≡ some d
      → matches f d ≡ false
      → doc id (c.delete_one id f w).1 ≡ doc id w

-- The calls of an elector, and the one that makes each.
pub data Call : Type 0 where
  acquire renew : ℕ → Call
  give_up : Call

abbrev pub Until : ℕ → Call → Type 0
Until t (acquire now) = now ≤ t
Until t (renew now) = Unit
Until t give_up = Unit

not_held : (d : Lease) (id : String) → id ≢ d.holder → (d.holder == id) ≡ false
not_held d id other = ground (arith, eq_iff d.holder id, other)

not_due :
    (d : Lease) (now : ℕ) (id : String)
    → id ≢ d.holder
    → now ≤ d.expires_at
    → (ltb d.expires_at now || (d.holder == id)) ≡ false
not_due d now id other early = ground (arith, not_held d id other)

module _ {W : Type 0} (c : Collection W) (name : String) where
  -- An instance of the program, by its identity and the duration of its leases.
  abbrev pub elector : String × ℕ → Elector W
  elector (identity, duration) = record {
    collection = c;
    lease_name = name;
    identity = identity;
    lease_duration = duration;
  }

  pub call : String × ℕ → Call → W → W
  call e (acquire now) w = (try_acquire (elector e) now w).1
  call e (renew now) w = (try_renew (elector e) now w).1
  call e give_up w = release (elector e) w

  pub calls : List ((String × ℕ) × Call) → W → W
  calls [] w = w
  calls ((e, k) ∷ rest) w = calls rest (call e k w)

  module _ (s : IsCollection c) where
    open s use {doc}

    renew-world :
        (e : String × ℕ) (now : ℕ) (w : W)
        → (try_renew (elector e) now w).1
          ≡ (c.update_one name (held_by e.0) (set_renewed now (now + e.1)) w).1
    unfolding try_renew
    renew-world e now w = go (c.update_one name (held_by e.0) (set_renewed now (now + e.1)) w).0 _
      where
        go : (r : Result ℕ) (w' : W) → (continue r (λ matched. pure (ltb 0 matched)) w').1 ≡ w'
        go (ok n) w' = refl
        go (err error) w' = refl
        go panic w' = refl

    -- Another instance's call before the lease expires leaves the lease as it is.
    call-other :
        (e : String × ℕ) (k : Call) (w : W) (d : Lease)
        → doc name w ≡ some d
        → e.0 ≢ d.holder
        → Until d.expires_at k
        → doc name (call e k w) ≡ some d
    unfolding call try_acquire release
    call-other e (acquire now) w d here other early =
        (s.upsert_taken name (expired_or_held_by now e.0) (set_lease e.0 now now (now + e.1)) w d
          here (not_due d now e.0 other early)).1
        ∙ here
    call-other e (renew now) w d here other early =
        ap (doc name) (renew-world e now w)
        ∙ s.update_doc name (held_by e.0) (set_renewed now (now + e.1)) w d here
            (not_held d e.0 other)
        ∙ here
    call-other e give_up w d here other early =
        s.delete_doc name (held_by e.0) w d here (not_held d e.0 other) ∙ here

    calls-others :
        (steps : List ((String × ℕ) × Call)) (w : W) (d : Lease)
        → doc name w ≡ some d
        → All (λ x. (x.0.0 ≢ d.holder) × Until d.expires_at x.1) steps
        → doc name (calls steps w) ≡ some d
    unfolding calls
    calls-others [] w d here others = here
    calls-others ((e, k) ∷ rest) w d here others =
        calls-others rest (call e k w) d (call-other e k w d here others.0.0 others.0.1) others.1

    acquired-done : (r : Upsert) → acquired r ≡ ok true → r ≡ done
    unfolding acquired
    acquired-done done e = refl
    acquired-done duplicate_key e = cc
    acquired-done (failed error) e = cc

    upserted-lease :
        (id : String) (now t : ℕ) (o : Option Lease)
        → upserted (set_lease id now now t) o
          ≡ record { holder = id; acquired_at = now; renewed_at = now; expires_at = t }
    upserted-lease id now t none = refl
    upserted-lease id now t (some d) = refl

    -- Where the collection keeps its contract: once an instance has acquired the lease at a
    -- time, then after any calls of other instances, whose attempts to acquire it are made
    -- before that lease expires, no other instance acquires it before it expires.
    pub try_acquire-excludes :
        (e : String × ℕ) (now : ℕ) (w : W) (steps : List ((String × ℕ) × Call)) (e' : String × ℕ)
        (now' : ℕ)
        → (try_acquire (elector e) now w).0 ≡ ok true
        → All (λ x. (x.0.0 ≢ e.0) × Until (now + e.1) x.1) steps
        → e'.0 ≢ e.0
        → now' ≤ now + e.1
        → (try_acquire (elector e') now' (calls steps (try_acquire (elector e) now w).1)).0
          ≢ ok true
    unfolding try_acquire
    try_acquire-excludes e now w steps e' now' won others other early won' =
        let held : Lease = record {
          holder = e.0;
          acquired_at = now;
          renewed_at = now;
          expires_at = now + e.1;
        } in
        let first =
          s.upsert_done name (expired_or_held_by now e.0) (set_lease e.0 now now (now + e.1)) w
            (acquired-done _ won)
          ∙ ap (λ (d : Lease). some d) (upserted-lease e.0 now (now + e.1) (doc name w)) in
        let kept = calls-others steps (try_acquire (elector e) now w).1 held first others in
        (s.upsert_taken name (expired_or_held_by now' e'.0) (set_lease e'.0 now' now' (now' + e'.1))
            (calls steps (try_acquire (elector e) now w).1) held kept
            (not_due held now' e'.0 other early)).0
          (acquired-done _ won')
