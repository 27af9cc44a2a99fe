-- ===== src/Impl/ProvisionerIngress/Batch/Packing.antt =====
-- How `BatchProvision` packs routes into the Ingresses that exist.
use dynamic_routes_provision.Base.{
  ℕ, ◌+◌, ◌-◌, ◌≤◌, ◌<◌, ◌≡◌, refl, ap, ◌∙◌, false, List, [], ◌∷◌, ◌++◌, arith, leb, length, take,
  drop, take-append-drop, length-take, Bool-cases, inl, inr,
}
use mathlib.Core.List.{append_assoc}
use dynamic_routes_provision.Impl.ProvisionerIngress.Types.{Ingress}
use dynamic_routes_provision.Impl.ProvisionerIngress.Batch.{MappedRoute, Batch, fill_existing}

-- The routes of all batches, in order.
abbrev pub routes_in : List Batch → List MappedRoute
routes_in [] = []
routes_in (b ∷ rest) = b.routes ++ routes_in rest

-- Each batch goes to an Ingress of its own, in the order of the Ingresses, brings at least one
-- route, and leaves the Ingress with at most `max` rules.
pub data FitsIn (max : ℕ) : List Ingress → List Batch → Type 0 where
  done : {ings : List Ingress} → FitsIn max ings []
  skip :
      {ing : Ingress} {ings : List Ingress} {bs : List Batch}
      → FitsIn max ings bs
      → FitsIn max (ing ∷ ings) bs
  put :
      {ing : Ingress} {ings : List Ingress} {b : Batch} {bs : List Batch}
      → b.ingress_name ≡ ing.name
      → 0 < length b.routes
      → length ing.rules + length b.routes ≤ max
      → FitsIn max ings bs
      → FitsIn max (ing ∷ ings) (b ∷ bs)

-- What a batch takes fits into the room that the Ingress has.
taken_bounds :
    (max n : ℕ) (m : MappedRoute) (mapped : List MappedRoute)
    → leb (max - n) 0 ≡ false
    → (0 < length (take (max - n) (m ∷ mapped))) × (n + length (take (max - n) (m ∷ mapped)) ≤ max)
taken_bounds max n m mapped room =
    let some_room : 0 < max - n = ground arith in
    let taken = length-take (max - n) (m ∷ mapped) in (omega (arith, taken), omega (arith, taken))

-- No route is lost, repeated or moved when the existing Ingresses are filled: the batches
-- followed by what is left are the routes given.
pub fill_existing_complete :
    (max : ℕ) (ings : List Ingress) (mapped : List MappedRoute)
    → let (batches, left) = fill_existing max ings mapped in routes_in batches ++ left ≡ mapped
unfolding fill_existing
fill_existing_complete max [] mapped = refl
fill_existing_complete max (ing ∷ rest) [] = refl
fill_existing_complete max (ing ∷ rest) (m ∷ mapped) =
    elim (Bool-cases (leb (max - length ing.rules) 0)) [
      | inl full ↦ simp full (fill_existing_complete max rest (m ∷ mapped))
      | inr room ↦ simp room (
          append_assoc (take (max - length ing.rules) (m ∷ mapped))
            (routes_in (fill_existing max rest (drop (max - length ing.rules) (m ∷ mapped))).0)
            (fill_existing max rest (drop (max - length ing.rules) (m ∷ mapped))).1
          ∙ ap (λ (l : List MappedRoute). take (max - length ing.rules) (m ∷ mapped) ++ l)
              (fill_existing_complete max rest (drop (max - length ing.rules) (m ∷ mapped)))
          ∙ take-append-drop (max - length ing.rules) (m ∷ mapped))
    ]

-- Each batch that is put into an existing Ingress goes to an Ingress of its own, in the order of
-- the Ingresses, brings at least one route, and leaves the Ingress with at most `max` rules.
pub fill_existing-FitsIn :
    (max : ℕ) (ings : List Ingress) (mapped : List MappedRoute)
    → FitsIn max ings (fill_existing max ings mapped).0
unfolding fill_existing
fill_existing-FitsIn max [] mapped = done
fill_existing-FitsIn max (ing ∷ rest) [] = done
fill_existing-FitsIn max (ing ∷ rest) (m ∷ mapped) =
    elim (Bool-cases (leb (max - length ing.rules) 0)) [
      | inl full ↦ simp full (skip (fill_existing-FitsIn max rest (m ∷ mapped)))
      | inr room ↦ simp room (
          put refl (taken_bounds max (length ing.rules) m mapped room).0
            (taken_bounds max (length ing.rules) m mapped room).1
            (fill_existing-FitsIn max rest (drop (max - length ing.rules) (m ∷ mapped))))
    ]
