-- ===== src/Impl/ProvisionerNetscaler/Sequence.antt =====
-- The loop over the operations of a route: what is left behind when one of them fails.
use dynamic_routes_provision.Base.{
  ℕ, suc, ◌+◌, ◌≡◌, refl, ap, ◌∙◌, Option, List, [], ◌∷◌, ◌++◌, arith, length,
}
use dynamic_routes_provision.Core.Result.{
  Error, wrap, Result, ok, err, panic, ◌>>◌, continue, wrapping,
}
use dynamic_routes_provision.Core.Route.{RouteRequest, Certificate}
use dynamic_routes_provision.Impl.ProvisionerNetscaler.Nitro.{NitroOperation, execute}
use dynamic_routes_provision.Impl.ProvisionerNetscaler.{
  NetscalerProvisioner, failure, execute_all, provision,
}

module _ {W : Type 0} (p : NetscalerProvisioner W) where
  -- A list of operations that is executed in two parts.
  execute_all-append :
      (i : ℕ) (xs ys : List NitroOperation) (w : W)
      → execute_all p i (xs ++ ys) w ≡ (execute_all p i xs >> execute_all p (i + length xs) ys) w
  unfolding execute_all
  execute_all-append i [] ys w = ap (λ (k : ℕ). execute_all p k ys w) (omega arith)
  execute_all-append i (op ∷ xs) ys w =
      go
        (λ w'.
          execute_all-append (suc i) xs ys w'
          ∙ ap (λ (k : ℕ). (execute_all p (suc i) xs >> execute_all p k ys) w') (omega arith))
        (wrapping (failure p i op) (execute p.client op) w).0
        (wrapping (failure p i op) (execute p.client op) w).1
    where
      go :
          ((w' : W)
            → execute_all p (suc i) (xs ++ ys) w'
              ≡ (execute_all p (suc i) xs >> execute_all p (i + suc (length xs)) ys) w')
          → (r : Result (Unit {0})) (w' : W)
          → continue r (λ _. execute_all p (suc i) (xs ++ ys)) w'
            ≡ continue
                (continue r (λ _. execute_all p (suc i) xs) w').0
                (λ _. execute_all p (i + suc (length xs)) ys)
                (continue r (λ _. execute_all p (suc i) xs) w').1
      go ih (ok a) w' = ih w'
      go ih (err e) w' = refl
      go ih panic w' = refl

  execute_all-fails :
      (i : ℕ) (op : NitroOperation) (ys : List NitroOperation) (e : Error) (w w' : W)
      → execute p.client op w ≡ (err e, w')
      → execute_all p i (op ∷ ys) w ≡ (err (wrap (failure p i op) e), w')
  unfolding execute_all
  execute_all-fails i op ys e w w' fails =
      ap
        (λ (m : Result (Unit {0}) × W).
          (wrapping (failure p i op) (λ _. m) >> execute_all p (suc i) ys) w)
        fails

  -- When the operations before one were executed and that one fails, `Provision` returns its
  -- error with its number and its resource, and leaves the world as the failed operation left
  -- it, whichever operations come after: none of those is sent, and what was executed before is
  -- not undone.
  pub provision-fails :
      (req : RouteRequest) (cert : Option Certificate) (xs : List NitroOperation)
      (op : NitroOperation) (ys : List NitroOperation) (e : Error) (w w₁ w₂ : W)
      → p.mapper.map_provision req cert ≡ ok (xs ++ op ∷ ys)
      → execute_all p 0 xs w ≡ (ok tt, w₁)
      → execute p.client op w₁ ≡ (err e, w₂)
      → provision p req cert w ≡ (err (wrap (failure p (length xs) op) e), w₂)
  unfolding provision
  provision-fails req cert xs op ys e w w₁ w₂ mapped before fails =
      rw
        (
          mapped,
          execute_all-append 0 xs (op ∷ ys) w,
          before,
          execute_all-fails (0 + length xs) op ys e w₁ w₂ fails,
        )
        (ap (λ (k : ℕ). (err (wrap (failure p k op) e), w₂)) (omega arith))
