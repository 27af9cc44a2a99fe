-- ===== src/Cmd/Config/Validation.antt =====
-- cmd/routes-provisioner/internal/config/config.go: which configurations are accepted.
use dynamic_routes_provision.Base.{
  String, ℕ, suc, ◌≡◌, ◌≢◌, refl, ◌⊎◌, inl, inr, ◌↔◌, ◌==◌, ◌||◌, Bool, true, false, List, [], ◌∷◌,
  All, if◌then◌else◌, eq_iff, arith,
}
use dynamic_routes_provision.Core.Result.{Error, Result, ok, err, panic}
use dynamic_routes_provision.Cmd.Config.{
  Config, DatasourceConfig, CollectionConfig, ProvisionerConfig, CertificateConfig,
  mongo_collections, one_of, check_collections, then_check, validate_datasource,
  validate_provisioner, validate_certificate, validate_store, validate_election, validate,
}

abbrev pub IsSource : DatasourceConfig → Type 0
IsSource d =
    ((d.provider ≡ "mongodb")
      × (d.uri ≢ "")
      × (d.database ≢ "")
      × All (λ (c : CollectionConfig). c.collection ≢ "") (mongo_collections d))
    ⊎ (d.provider ≡ "http")

pub eq-true : (a b : String) → ((a == b) ≡ true) ↔ (a ≡ b)
eq-true a b = (λ h. ground (arith, h, eq_iff a b), λ h. ground (arith, h, eq_iff a b))

pub eq-false : (a b : String) → ((a == b) ≡ false) ↔ (a ≢ b)
eq-false a b = (λ h. ground (arith, h, eq_iff a b), λ h. ground (arith, h, eq_iff a b))

-- The shapes of the checks.
abbrev passed : Result (Unit {0})
passed = ok tt

guard_iff :
    (b : Bool) (e : Error) (r : Result (Unit {0}))
    → ((if b then err e else r) ≡ ok tt) ↔ ((b ≡ false) × (r ≡ ok tt))
guard_iff true e r = (λ h. cc, λ h. cc)
guard_iff false e r = (λ h. (refl, h), λ h. h.1)

one_of_iff : (b : Bool) (e : Error) → ((if b then passed else err e) ≡ passed) ↔ (b ≡ true)
one_of_iff true e = (λ h. refl, λ h. refl)
one_of_iff false e = (λ h. cc, λ h. cc)

enabled_iff :
    (b : Bool) (r : Result (Unit {0})) → ((if b then r else ok tt) ≡ ok tt) ↔ (b ≡ true → r ≡ ok tt)
enabled_iff true r = (λ h e. h, λ h. h refl)
enabled_iff false r = (λ h e. cc, λ h. refl)

branch_iff :
    (b : Bool) (r s : Result (Unit {0}))
    → ((if b then r else s) ≡ ok tt) ↔ (((b ≡ true) × (r ≡ ok tt)) ⊎ ((b ≡ false) × (s ≡ ok tt)))
branch_iff true r s = (λ h. inl (refl, h), λ h. elim h [ inl p ↦ p.1 | inr q ↦ cc ])
branch_iff false r s = (λ h. inr (refl, h), λ h. elim h [ inl p ↦ cc | inr q ↦ q.1 ])

then_iff : (r s : Result (Unit {0})) → (then_check r s ≡ ok tt) ↔ ((r ≡ ok tt) × (s ≡ ok tt))
then_iff (ok a) s = (λ h. (refl, h), λ h. h.1)
then_iff (err e) s = (λ h. cc, λ h. cc)
then_iff panic s = (λ h. cc, λ h. cc)

check_collections_iff :
    (i : ℕ) (cs : List CollectionConfig)
    → (check_collections i cs ≡ ok tt) ↔ All (λ (c : CollectionConfig). c.collection ≢ "") cs
unfolding check_collections
check_collections_iff i [] = (λ e. tt, λ h. refl)
check_collections_iff i (c ∷ cs) =
    let later = check_collections_iff (suc i) cs in
    let here = guard_iff (c.collection == "") _ (check_collections (suc i) cs) in
    let named = eq-false c.collection "" in
    (λ h. (named.0 (here.0 h).0, later.0 (here.0 h).1), λ h. here.1 (named.1 h.0, later.1 h.1))

validate_datasource-IsSource : (d : DatasourceConfig) → (validate_datasource d ≡ ok tt) ↔ IsSource d
unfolding validate_datasource
validate_datasource-IsSource d =
    let mongo = eq-true d.provider "mongodb" in
    let http = eq-true d.provider "http" in
    let whole = branch_iff (d.provider == "mongodb") _ _ in
    let uri = guard_iff (d.uri == "") _ _ in
    let database = guard_iff (d.database == "") _ _ in
    let cols = check_collections_iff 0 (mongo_collections d) in
    let other = one_of_iff (d.provider == "http") _ in
    (
      λ h. elim (whole.0 h) [
        | inl p ↦
            let q = uri.0 p.1 in
            let r = database.0 q.1 in
            inl (mongo.0 p.0, (eq-false d.uri "").0 q.0, (eq-false d.database "").0 r.0, cols.0 r.1)
        | inr p ↦ inr (http.0 (other.0 p.1))
      ],
      λ h. elim h [
        | inl p ↦ whole.1 (
            inl (
              mongo.1 p.0,
              uri.1 (
                (eq-false d.uri "").1 p.1,
                database.1 ((eq-false d.database "").1 p.2, cols.1 p.3),
              ),
            ))
        | inr p ↦ whole.1 (inr ((eq-false d.provider "mongodb").1 (λ e. cc), other.1 (http.1 p)))
      ],
    )

-- One of a list of names.
abbrev pub OneOf : String → List String → Type 0
OneOf s [] = ⊥
OneOf s (n ∷ ns) = (s ≡ n) ⊎ OneOf s ns

pub or_iff : (b c : Bool) → ((b || c) ≡ true) ↔ ((b ≡ true) ⊎ (c ≡ true))
or_iff true c = (λ h. inl refl, λ h. refl)
or_iff false c = (λ h. inr h, λ h. elim h [ inl p ↦ cc | inr q ↦ q ])

names_iff : (s : String) (ns : List String) → (one_of s ns ≡ true) ↔ OneOf s ns
names_iff s [] = (λ h. cc, λ h. absurd h)
names_iff s (n ∷ ns) =
    let here = or_iff (s == n) (one_of s ns) in
    let name = eq-true s n in
    let later = names_iff s ns in
    (
      λ h. elim (here.0 h) [ inl p ↦ inl (name.0 p) | inr q ↦ inr (later.0 q) ],
      λ h. elim h [ inl p ↦ here.1 (inl (name.1 p)) | inr q ↦ here.1 (inr (later.1 q)) ],
    )

abbrev pub IsProvisioner : ProvisionerConfig → Type 0
IsProvisioner p =
    ((p.provider ≡ "netscaler") × (p.endpoint ≢ "")) ⊎ OneOf p.provider ("ingress" ∷ "log" ∷ [])

-- What a configuration must hold for the program to start with it.
abbrev pub IsValid : Config → Type 0
IsValid c =
    IsSource c.datasource
    × IsProvisioner c.provisioner
    × OneOf c.certificate.provider ("none" ∷ "acme-http" ∷ "acme-dns" ∷ "selfsigned" ∷ "vault" ∷ [])
    × (c.certificate_store.enabled ≡ true
        → OneOf c.certificate_store.provider ("kube" ∷ "vault" ∷ "file" ∷ []))
    × (c.leader_election.enabled ≡ true → OneOf c.leader_election.provider ("kube" ∷ "mongo" ∷ []))

validate_provisioner-IsProvisioner :
    (p : ProvisionerConfig) → (validate_provisioner p ≡ ok tt) ↔ IsProvisioner p
unfolding validate_provisioner
validate_provisioner-IsProvisioner p =
    let netscaler = eq-true p.provider "netscaler" in
    let endpoint = guard_iff (p.endpoint == "") _ (ok tt) in
    let whole = branch_iff (p.provider == "netscaler") _ _ in
    let other = one_of_iff (one_of p.provider ("ingress" ∷ "log" ∷ [])) _ in
    let names = names_iff p.provider ("ingress" ∷ "log" ∷ []) in
    (
      λ h. elim (whole.0 h) [
        | inl q ↦ inl (netscaler.0 q.0, (eq-false p.endpoint "").0 (endpoint.0 q.1).0)
        | inr q ↦ inr (names.0 (other.0 q.1))
      ],
      λ h. elim h [
        | inl q ↦ whole.1 (inl (netscaler.1 q.0, endpoint.1 ((eq-false p.endpoint "").1 q.1, refl)))
        | inr q ↦ whole.1 (
            inr (
              (eq-false p.provider "netscaler").1
                  (λ e. elim q [ inl i ↦ cc | inr r ↦ elim r [ inl i ↦ cc | inr n ↦ n ] ]),
              other.1 (names.1 q),
            ))
      ],
    )

certificate_iff :
    (c : CertificateConfig)
    → (validate_certificate c ≡ ok tt)
      ↔ OneOf c.provider ("none" ∷ "acme-http" ∷ "acme-dns" ∷ "selfsigned" ∷ "vault" ∷ [])
unfolding validate_certificate
certificate_iff c =
    let names =
      names_iff c.provider ("none" ∷ "acme-http" ∷ "acme-dns" ∷ "selfsigned" ∷ "vault" ∷ []) in
    let one =
      one_of_iff
        (one_of c.provider ("none" ∷ "acme-http" ∷ "acme-dns" ∷ "selfsigned" ∷ "vault" ∷ [])) _ in
    (λ h. names.0 (one.0 h), λ h. one.1 (names.1 h))

-- A check that is made only when a part is enabled.
optional_iff :
    (on : Bool) (s : String) (ns : List String) (e : Error)
    → ((if on then (if one_of s ns then ok tt else err e) else ok tt) ≡ passed)
      ↔ (on ≡ true → OneOf s ns)
optional_iff on s ns e =
    let whole = enabled_iff on (if one_of s ns then ok tt else err e) in
    let one = one_of_iff (one_of s ns) e in
    let names = names_iff s ns in
    (λ h k. names.0 (one.0 (whole.0 h k)), λ h. whole.1 (λ k. one.1 (names.1 (h k))))

-- A configuration passes the check just when: its datasource is MongoDB with a URI, a database and
-- a name for each of its effective collections, or HTTP; its provisioner is the Netscaler with an
-- endpoint, the Ingress or the log; its issuer, and its certificate store and leader election where
-- they are enabled, are among those that the program has.
pub validate_iff : (c : Config) → (validate c ≡ ok tt) ↔ IsValid c
unfolding validate validate_store validate_election
validate_iff c =
    let first = then_iff (validate_datasource c.datasource) _ in
    let second = then_iff (validate_provisioner c.provisioner) _ in
    let third = then_iff (validate_certificate c.certificate) _ in
    let fourth =
      then_iff (validate_store c.certificate_store) (validate_election c.leader_election) in
    let source = validate_datasource-IsSource c.datasource in
    let provisioner = validate_provisioner-IsProvisioner c.provisioner in
    let certificate = certificate_iff c.certificate in
    let store =
      optional_iff c.certificate_store.enabled c.certificate_store.provider
        ("kube" ∷ "vault" ∷ "file" ∷ []) _ in
    let election =
      optional_iff c.leader_election.enabled c.leader_election.provider ("kube" ∷ "mongo" ∷ []) _ in
    (
      λ h.
          let a = first.0 h in
          let b = second.0 a.1 in
          let d = third.0 b.1 in
          let e = fourth.0 d.1 in
          (source.0 a.0, provisioner.0 b.0, certificate.0 d.0, store.0 e.0, election.0 e.1),
      λ h. first.1 (
        source.1 h.0,
        second.1 (
          provisioner.1 h.1,
          third.1 (certificate.1 h.2, fourth.1 (store.1 h.3, election.1 h.4)),
        ),
      ),
    )
