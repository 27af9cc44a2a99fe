-- ===== src/Core/Result/Rules.antt =====
-- A rule for sequenced actions.
use dynamic_routes_provision.Base.{String, ◌≡◌, refl}
use dynamic_routes_provision.Core.Result.{Result, ok, err, panic, Action, IsOk, continue, wrapped}

module _ {ℓ} {W A B : Type ℓ} where
  -- If the first action succeeds, what holds of the rest holds of the whole.
  pub continue_rule :
      (Q : Result B → Type 0) (P : W → Type 0) (x : Result A) (f : A → Action W B) (w : W)
      → IsOk x
      → ((a : A) → Q (f a w).0 × P (f a w).1)
      → Q (continue x f w).0 × P (continue x f w).1
  continue_rule Q P (ok a) f w h k = k a
  continue_rule Q P (err e) f w h k = absurd h
  continue_rule Q P panic f w h k = absurd h

module _ {ℓ} {W A B : Type ℓ} where
  -- A sequence that succeeds has a first action that succeeds.
  pub continue-eq-ok :
      (x : Result A) (f : A → Action W B) (w : W) {b : B}
      → (continue x f w).0 ≡ ok b
      → (a : A) × (x ≡ ok a) × ((f a w).0 ≡ ok b)
  continue-eq-ok (ok a) f w h = (a, refl, h)
  continue-eq-ok (err e) f w h = cc
  continue-eq-ok panic f w h = cc

  -- The same with the world between the two.
  pub continue-step :
      (x : Result A) (f : A → Action W B) (w : W) {b : B} {w' : W}
      → continue x f w ≡ (ok b, w')
      → (a : A) × (x ≡ ok a) × (f a w ≡ (ok b, w'))
  continue-step (ok a) f w h = (a, refl, h)
  continue-step (err e) f w h = cc
  continue-step panic f w h = cc

pub wrapped-eq-ok {ℓ} :
    {A : Type ℓ} (context : String) (x : Result A) {a : A} → wrapped context x ≡ ok a → x ≡ ok a
wrapped-eq-ok context (ok a) h = h
wrapped-eq-ok context (err e) h = cc
wrapped-eq-ok context panic h = cc

pub ok-injective {ℓ} : {A : Type ℓ} {a b : A} → ok a ≡ ok b → a ≡ b
ok-injective h = cc
