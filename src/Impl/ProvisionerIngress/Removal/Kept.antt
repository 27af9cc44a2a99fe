-- ===== src/Impl/ProvisionerIngress/Removal/Kept.antt =====
-- What `BatchDeprovision` keeps of one Ingress.
use dynamic_routes_provision.Base.{
  String, ◌≡◌, refl, ap, ◌∙◌, Bool, true, false, not, ◌&&◌, ◌||◌, List, [], ◌∷◌, ◌++◌, arith, ◌==◌,
  eq_iff, any, filter, Bool-cases, inl, inr,
}
use mathlib.Core.List.{append_assoc, append-nil}
use mathlib.Core.Path.{fun_ext}
use dynamic_routes_provision.Core.Dict.{Dict, insert, has, has-insert}
use dynamic_routes_provision.Core.Reconciler.Contract.{listed}
use dynamic_routes_provision.Impl.ProvisionerIngress.Types.{
  IngressRule, IngressTls, Ingress, IngressMapper,
}
use dynamic_routes_provision.Impl.ProvisionerIngress.Removal.{
  Split, removal_set, split_rules, split_ingress, keep_tls, is_empty,
}

removal_set-acc :
    (id : String) (ids : List String) (m : Dict (Unit {0}))
    → has id (removal_set ids m) ≡ (listed id ids || has id m)
unfolding removal_set
removal_set-acc id [] m = refl
removal_set-acc id (x ∷ rest) m =
    ground (arith, removal_set-acc id rest (insert x tt m), has-insert x id tt m)

pub has-removal_set :
    (ids : List String) (id : String) → has id (removal_set ids []) ≡ listed id ids
unfolding has
has-removal_set ids id = ground (arith, removal_set-acc id ids [])

or_true : (a b : Bool) → (a || true) ≡ (true || b)
or_true a b = ground arith

or_false : (a : Bool) → (a || false) ≡ a
or_false a = ground arith

module _ (mapper : IngressMapper) (gone : Dict (Unit {0})) where
  abbrev goes : IngressRule → Bool
  goes rule = has (mapper.extract_route_id rule) gone

  split-keep :
      (rules : List IngressRule) (s : Split)
      → (split_rules mapper gone rules s).keep_rules
        ≡ s.keep_rules ++ filter (λ r. not (goes r)) rules
  unfolding split_rules
  split-keep [] s = rw append-nil
  split-keep (r ∷ rest) s = elim (Bool-cases (goes r)) [
    | inl out ↦ simp out (
        split-keep rest
          (record s { removed_hosts = insert r.host tt s.removed_hosts; changed = true }))
    | inr stays ↦ simp stays (
        split-keep rest (record s { keep_rules = s.keep_rules ++ r ∷ [] })
        ∙ append_assoc s.keep_rules (r ∷ []) (filter (λ x. not (goes x)) rest))
  ]

  split-changed :
      (rules : List IngressRule) (s : Split)
      → (split_rules mapper gone rules s).changed ≡ (any goes rules || s.changed)
  unfolding split_rules
  split-changed [] s = refl
  split-changed (r ∷ rest) s = elim (Bool-cases (goes r)) [
    | inl out ↦ simp out (
        split-changed rest
          (record s { removed_hosts = insert r.host tt s.removed_hosts; changed = true })
        ∙ or_true (any goes rest) s.changed)
    | inr stays ↦ simp stays (split-changed rest (record s { keep_rules = s.keep_rules ++ r ∷ [] }))
  ]

  split-hosts :
      (h : String) (rules : List IngressRule) (s : Split)
      → has h (split_rules mapper gone rules s).removed_hosts
        ≡ (any (λ r. goes r && (r.host == h)) rules || has h s.removed_hosts)
  unfolding split_rules
  split-hosts h [] s = refl
  split-hosts h (r ∷ rest) s = elim (Bool-cases (goes r)) [
    | inl out ↦ simp out (
        split-hosts h rest
          (record s { removed_hosts = insert r.host tt s.removed_hosts; changed = true })
        ∙ ground (arith, has-insert r.host h tt s.removed_hosts))
    | inr stays ↦ simp stays (split-hosts h rest (record s { keep_rules = s.keep_rules ++ r ∷ [] }))
  ]

-- The hosts that some TLS entry names.
abbrev pub names_host : String → List IngressTls → Bool
names_host h = any (λ t. any (λ x. x == h) t.hosts)

filter-is_empty : (h : String) (l : List String) → is_empty l ≡ true → any (λ x. x == h) l ≡ false
filter-is_empty h [] e = refl
filter-is_empty h (x ∷ l) e = cc

any-filter :
    (h : String) (removed : Dict (Unit {0})) (l : List String)
    → any (λ x. x == h) (filter (λ x. not (has x removed)) l)
      ≡ (not (has h removed) && any (λ x. x == h) l)
any-filter h removed [] = ground arith
any-filter h removed (x ∷ rest) = ground (
  arith,
  any-filter h removed rest,
  λ (e : (x == h) ≡ true). ap (λ (k : String). has k removed) ((eq_iff x h).0 e),
)

-- After a removal the TLS entries name the hosts that they named before, but the removed ones.
pub names_host-keep_tls :
    (h : String) (removed : Dict (Unit {0})) (l : List IngressTls)
    → names_host h (keep_tls removed l) ≡ (not (has h removed) && names_host h l)
unfolding keep_tls
names_host-keep_tls h removed [] = ground arith
names_host-keep_tls h removed (t ∷ rest) =
    let kept = filter (λ x. not (has x removed)) t.hosts in
    ground (
      arith,
      names_host-keep_tls h removed rest,
      any-filter h removed t.hosts,
      filter-is_empty h kept,
    )

module _ (mapper : IngressMapper) (ids : List String) (ing : Ingress) where
  -- The identifier of the rule is among those to remove.
  abbrev pub condemned : IngressRule → Bool
  condemned rule = listed (mapper.extract_route_id rule) ids

  goes_eq : (λ (r : IngressRule). goes mapper (removal_set ids []) r) ≡ condemned
  goes_eq = fun_ext λ r. has-removal_set ids (mapper.extract_route_id r)

  -- Of an Ingress `BatchDeprovision` keeps the rules whose identifier is not to be removed, in
  -- order, and it touches the Ingress exactly when some rule goes.
  pub split_ingress-lem :
      ((split_ingress mapper (removal_set ids []) ing).keep_rules
        ≡ filter (λ r. not (condemned r)) ing.rules)
      × ((split_ingress mapper (removal_set ids []) ing).changed ≡ any condemned ing.rules)
  unfolding split_ingress
  split_ingress-lem =
      let fresh : Split = record { keep_rules = []; removed_hosts = []; changed = false } in
      (
        split-keep mapper (removal_set ids []) ing.rules fresh
            ∙ ap (λ (f : IngressRule → Bool). filter (λ r. not (f r)) ing.rules) goes_eq,
        split-changed mapper (removal_set ids []) ing.rules fresh
            ∙ or_false (any (goes mapper (removal_set ids [])) ing.rules)
            ∙ ap (λ (f : IngressRule → Bool). any f ing.rules) goes_eq,
      )
