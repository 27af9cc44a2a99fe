-- ===== src/Core/Desired.antt =====
-- core/desired/composite.go: several sources of truth, read one after the other.
pub mod Examples
use dynamic_routes_provision.Base.{
  String, ◌⧺◌, ◌≡◌, refl, ap, sym, ◌∙◌, List, [], ◌∷◌, ◌++◌, map, All,
}
use mathlib.Core.List.{append_assoc, append-nil}
use dynamic_routes_provision.Core.Result.{Error, ok, err, Action, pure, ◌>>=◌}
use dynamic_routes_provision.Core.Route.{RouteRequest}
use dynamic_routes_provision.Core.Interfaces.{DesiredStateProvider}

-- `strings.Join(names, ", ")`
join : List String → String
join [] = ""
join (name ∷ []) = name
join (name ∷ (next ∷ rest)) = name ⧺ ", " ⧺ join (next ∷ rest)

module _ {W : Type 0} where
  -- The loop over the providers; the first error ends it.
  collect : List (DesiredStateProvider W) → List RouteRequest → Action W (List RouteRequest)
  collect [] acc = pure acc
  collect (p ∷ rest) acc = p.list >>= λ routes. collect rest (acc ++ routes)

  unfoldable pub composite_list : List (DesiredStateProvider W) → Action W (List RouteRequest)
  unfolding collect
  composite_list ps = collect ps []

  unfoldable pub composite : List (DesiredStateProvider W) → DesiredStateProvider W
  unfolding join composite_list
  composite ps = record {
    name = "composite(" ⧺ join (map (λ p. p.name) ps) ⧺ ")";
    list = composite_list ps;
  }

-- A provider that reads `routes` in the world `w`, and changes nothing.
abbrev pub Reads : {W : Type 0} → W → DesiredStateProvider W × List RouteRequest → Type 0
Reads w (p, routes) = p.list w ≡ (ok routes, w)

abbrev pub concat_all :
    {W : Type 0} → List (DesiredStateProvider W × List RouteRequest) → List RouteRequest
concat_all [] = []
concat_all ((p, routes) ∷ rest) = routes ++ concat_all rest

module _ {W : Type 0} where
  collect-Reads :
      (w : W) (ps : List (DesiredStateProvider W × List RouteRequest))
      (more : List (DesiredStateProvider W)) (acc : List RouteRequest)
      → All (Reads w) ps
      → collect (map (λ p. p.0) ps ++ more) acc w ≡ collect more (acc ++ concat_all ps) w
  unfolding collect
  collect-Reads w [] more acc reads = rw append-nil
  collect-Reads w ((p, routes) ∷ ps) more acc reads = rw (reads.0) (
      collect-Reads w ps more (acc ++ routes) reads.1
      ∙ ap (λ (r : List RouteRequest). collect more r w) (append_assoc acc routes (concat_all ps)))

  -- When each source of truth can be read, without changing anything, the composite is read as
  -- their routes, in the order of the sources.
  pub composite_list-Reads :
      (w : W) (ps : List (DesiredStateProvider W × List RouteRequest))
      → All (Reads w) ps
      → composite_list (map (λ p. p.0) ps) w ≡ (ok (concat_all ps), w)
  unfolding composite_list collect
  composite_list-Reads w ps reads =
      ap (λ (qs : List (DesiredStateProvider W)). collect qs [] w)
        (sym (append-nil (map (λ p. p.0) ps)))
      ∙ collect-Reads w ps [] [] reads

  -- When one source of truth cannot be read and those before it can, without changing anything,
  -- the composite returns the error of that source and no routes, and leaves the world as that
  -- source left it, whichever sources come after.
  pub composite_list-fails :
      (w : W) (ps : List (DesiredStateProvider W × List RouteRequest))
      (bad : DesiredStateProvider W) (more : List (DesiredStateProvider W)) (e : Error) (w' : W)
      → All (Reads w) ps
      → bad.list w ≡ (err e, w')
      → composite_list (map (λ p. p.0) ps ++ bad ∷ more) w ≡ (err e, w')
  unfolding composite_list collect
  composite_list-fails w ps bad more e w' reads fails =
      collect-Reads w ps (bad ∷ more) [] reads ∙ rw fails refl
