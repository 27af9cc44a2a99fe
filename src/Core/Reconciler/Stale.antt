-- ===== src/Core/Reconciler/Stale.antt =====
-- Which identifiers a cycle removes, and which hosts are left: facts about the two differences.
use dynamic_routes_provision.Base.{
  String, ◌≡◌, refl, sym, ap, ◌∙◌, Bool, true, false, not, ◌&&◌, ◌||◌, List, [], ◌∷◌, map, arith,
  ◌==◌, eq_iff, eq_refl, any, All, All-mono, filter-nil, Bool-cases, inl, inr,
}
use dynamic_routes_provision.Core.Route.{RouteRequest, ProvisionedRoute}
use dynamic_routes_provision.Core.Reconciler.Diff.{wanted, served, missing, stale}
use dynamic_routes_provision.Core.Reconciler.Contract.{listed}

abbrev pub stale_ids : List RouteRequest → List ProvisionedRoute → List String
stale_ids ds as' = map (λ a. a.route_id) (stale ds as')

wanted_congr : (g h : String) (ds : List RouteRequest) → (g == h) ≡ true → wanted g ds ≡ wanted h ds
wanted_congr g h ds e = ap (λ (k : String). wanted k ds) ((eq_iff g h).0 e)

served_congr :
    (g h : String) (as' : List ProvisionedRoute) → (g == h) ≡ true → served g as' ≡ served h as'
served_congr g h as' e = ap (λ (k : String). served k as') ((eq_iff g h).0 e)

-- A listed identifier is that of a route whose host is not desired.
stale_ids_sound :
    (host_of : String → String) (ds : List RouteRequest) (id : String) (as' : List ProvisionedRoute)
    → All (λ a. host_of a.route_id ≡ a.host) as'
    → listed id (stale_ids ds as') ≡ true
    → wanted (host_of id) ds ≡ false
stale_ids_sound host_of ds id [] ids e = cc
stale_ids_sound host_of ds id (a ∷ rest) ids e = elim (Bool-cases (wanted a.host ds)) [
  | inl kept ↦ stale_ids_sound host_of ds id rest ids.1 (rw kept at e)
  | inr gone ↦ elim (Bool-cases (a.route_id == id)) [
    | inl same ↦
        ap (λ (k : String). wanted (host_of k) ds) (sym ((eq_iff a.route_id id).0 same))
        ∙ ap (λ (k : String). wanted k ds) ids.0
        ∙ gone
    | inr other ↦ stale_ids_sound host_of ds id rest ids.1 (ground arith)
  ]
]

stale_ids_complete :
    (ds : List RouteRequest) (as' : List ProvisionedRoute)
    → All (λ a. wanted a.host ds ≡ false → listed a.route_id (stale_ids ds as') ≡ true) as'
stale_ids_complete ds [] = tt
stale_ids_complete ds (a ∷ rest) = (
  (λ gone. ground (arith, eq_refl a.route_id)),
  All-mono (λ b. wanted b.host ds ≡ false → listed b.route_id (stale_ids ds rest) ≡ true)
      (λ b. wanted b.host ds ≡ false → listed b.route_id (stale_ids ds (a ∷ rest)) ≡ true) rest
      (λ b h gone. ground (arith, h gone)) (stale_ids_complete ds rest),
)

pub removed-served :
    (ds : List RouteRequest) (gone : List String) (h : String) (as' : List ProvisionedRoute)
    → All (λ a. listed a.route_id gone ≡ not (wanted a.host ds)) as'
    → any (λ a. (a.host == h) && not (listed a.route_id gone)) as' ≡ (served h as' && wanted h ds)
removed-served ds gone h [] hs = refl
removed-served ds gone h (a ∷ rest) hs =
    ground (arith, removed-served ds gone h rest hs.1, hs.0, wanted_congr a.host h ds)

pub wanted-missing :
    (h : String) (as' : List ProvisionedRoute) (ds : List RouteRequest)
    → wanted h (missing ds as') ≡ (wanted h ds && not (served h as'))
wanted-missing h as' [] = refl
wanted-missing h as' (d ∷ rest) =
    ground (arith, wanted-missing h as' rest, served_congr d.host h as')

-- For a gateway whose identifiers stand for hosts, exactly the routes that are not desired are
-- listed.
pub stale_ids-exact :
    (host_of : String → String) (ds : List RouteRequest) (as' : List ProvisionedRoute)
    → All (λ a. host_of a.route_id ≡ a.host) as'
    → All (λ a. listed a.route_id (stale_ids ds as') ≡ not (wanted a.host ds)) as'
stale_ids-exact host_of ds as' ids = go as' ids (stale_ids_complete ds as')
  where
    one :
        (a : ProvisionedRoute)
        → host_of a.route_id ≡ a.host
        → (wanted a.host ds ≡ false → listed a.route_id (stale_ids ds as') ≡ true)
        → listed a.route_id (stale_ids ds as') ≡ not (wanted a.host ds)
    one a own complete = elim (Bool-cases (listed a.route_id (stale_ids ds as'))) [
      | inl e ↦
          e
          ∙ ap not (
              sym (
                ap (λ (k : String). wanted k ds) (sym own)
                ∙ stale_ids_sound host_of ds a.route_id as' ids e))
      | inr e ↦ elim (Bool-cases (wanted a.host ds)) [
        | inl w ↦ e ∙ ap not (sym w)
        | inr w ↦ cc (complete w)
      ]
    ]

    go :
        (xs : List ProvisionedRoute)
        → All (λ a. host_of a.route_id ≡ a.host) xs
        → All (λ a. wanted a.host ds ≡ false → listed a.route_id (stale_ids ds as') ≡ true) xs
        → All (λ a. listed a.route_id (stale_ids ds as') ≡ not (wanted a.host ds)) xs
    go [] own complete = tt
    go (a ∷ rest) own complete = (one a own.0 complete.0, go rest own.1 complete.1)

pub absorb : (w s : Bool) → ((w && not s) || (s && w)) ≡ w
absorb w s = ground arith

wanted_self : (ds : List RouteRequest) → All (λ d. wanted d.host ds ≡ true) ds
wanted_self [] = tt
wanted_self (d ∷ rest) = (
  ground (arith, eq_refl d.host),
  All-mono (λ x. wanted x.host rest ≡ true) (λ x. wanted x.host (d ∷ rest) ≡ true) rest
      (λ x h. ground arith) (wanted_self rest),
)

served_self : (as' : List ProvisionedRoute) → All (λ a. served a.host as' ≡ true) as'
served_self [] = tt
served_self (a ∷ rest) = (
  ground (arith, eq_refl a.host),
  All-mono (λ x. served x.host rest ≡ true) (λ x. served x.host (a ∷ rest) ≡ true) rest
      (λ x h. ground arith) (served_self rest),
)

module _ (ds : List RouteRequest) (as' : List ProvisionedRoute)
    (same : (h : String) → served h as' ≡ wanted h ds) where
  pub none_missing : missing ds as' ≡ []
  none_missing =
      filter-nil (λ d. not (served d.host as')) ds
        (All-mono (λ d. wanted d.host ds ≡ true) (λ d. not (served d.host as') ≡ false) ds
          (λ d e. ap not (same d.host ∙ e)) (wanted_self ds))

  pub none_stale : stale ds as' ≡ []
  none_stale =
      filter-nil (λ a. not (wanted a.host ds)) as'
        (All-mono (λ a. served a.host as' ≡ true) (λ a. not (wanted a.host ds) ≡ false) as'
          (λ a e. ap not (sym (same a.host) ∙ e)) (served_self as'))
