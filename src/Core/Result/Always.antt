-- ===== src/Core/Result/Always.antt =====
-- Actions that succeed in every world, and actions that panic in every world.
use dynamic_routes_provision.Base.{String, ◌≡◌, refl, ap, Bool, true, false, if◌then◌else◌}
use dynamic_routes_provision.Core.Result.{
  Result, ok, err, panic, IsOk, Action, pure, continue, ◌>>=◌, wrapping, wrapped, lift,
}
use dynamic_routes_provision.Core.Result.Rules.{ok-injective}

module _ {W : Type 0} where
  -- The action returns a value with `P`.
  unfoldable pub Always : {A : Type 0} → (A → Type 0) → Action W A → Type 0
  Always {A = A} P m = (w : W) → (a : A) × ((m w).0 ≡ ok a) × P a

  unfoldable pub Panics : {A : Type 0} → Action W A → Type 0
  Panics m = (w : W) → (m w).0 ≡ panic

pub lift-Always :
    {A : Type 0} (W : Type 0) (P : A → Type 0) (r : Result A) (a : A)
    → r ≡ ok a
    → P a
    → Always P (lift {W = W} r)
unfolding Always
lift-Always W P r a e h w = (a, e, h)

pub pure-Always :
    {A : Type 0} (W : Type 0) (P : A → Type 0) (a : A) → P a → Always P (pure {W = W} a)
unfolding Always
pure-Always W P a h w = (a, refl, h)

module _ {W A : Type 0} (P : A → Type 0) where
  pub wrapping-Always :
      (context : String) (m : Action W A) → Always P m → Always P (wrapping context m)
  unfolding Always
  wrapping-Always context m h w =
      let (a, e, p) = h w in (a, ap (λ (r : Result A). wrapped context r) e, p)

  pub then-Always :
      (b : Bool) (m n : Action W A) → b ≡ true → Always P m → Always P (if b then m else n)
  then-Always true m n e h = h
  then-Always false m n e h = cc

  pub else-Always :
      (b : Bool) (m n : Action W A) → b ≡ false → Always P n → Always P (if b then m else n)
  else-Always true m n e h = cc
  else-Always false m n e h = h

module _ {W A B : Type 0} (P : A → Type 0) where
  continue-Always :
      (Q : Result B → Type 0) (r : Result A) (f : A → Action W B) (w : W) (a : A)
      → r ≡ ok a
      → Q (f a w).0
      → Q (continue r f w).0
  continue-Always Q (ok a') f w a e q = rw (ok-injective e) q
  continue-Always Q (err x) f w a e q = cc
  continue-Always Q panic f w a e q = cc

  pub bind-Always :
      (Q : B → Type 0) (m : Action W A) (f : A → Action W B)
      → Always P m
      → ((a : A) → P a → Always Q (f a))
      → Always Q (m >>= f)
  unfolding Always
  bind-Always Q m f h k w =
      let (a, e, p) = h w in
      continue-Always (λ (r : Result B). (b : B) × (r ≡ ok b) × Q b) (m w).0 f (m w).1 a e
        (k a p (m w).1)

  pub bind-Panics :
      (m : Action W A) (f : A → Action W B)
      → Always P m
      → ((a : A) → P a → Panics (f a))
      → Panics (m >>= f)
  unfolding Always Panics
  bind-Panics m f h k w =
      let (a, e, p) = h w in
      continue-Always (λ (r : Result B). r ≡ panic) (m w).0 f (m w).1 a e (k a p (m w).1)

module _ {W A B : Type 0} where
  continue-panic :
      (r : Result A) (f : A → Action W B) (w : W) → r ≡ panic → (continue r f w).0 ≡ panic
  continue-panic (ok a) f w e = cc
  continue-panic (err x) f w e = cc
  continue-panic panic f w e = refl

  pub first-Panics : (m : Action W A) (f : A → Action W B) → Panics m → Panics (m >>= f)
  unfolding Panics
  first-Panics m f h w = continue-panic (m w).0 f (m w).1 (h w)

module _ {W A : Type 0} where
  pub then-Panics :
      (b : Bool) (m n : Action W A) → b ≡ true → Panics m → Panics (if b then m else n)
  then-Panics true m n e h = h
  then-Panics false m n e h = cc

  pub else-Panics :
      (b : Bool) (m n : Action W A) → b ≡ false → Panics n → Panics (if b then m else n)
  else-Panics true m n e h = cc
  else-Panics false m n e h = h

ok_of : {A : Type 0} (r : Result A) → IsOk r → (a : A) × (r ≡ ok a)
ok_of (ok a) h = (a, refl)
ok_of (err e) h = absurd h
ok_of panic h = absurd h

-- A call, or a result, that succeeds.
pub call-Always :
    {W A : Type 0} (m : Action W A) → ((w : W) → IsOk (m w).0) → Always (λ (a : A). Unit) m
unfolding Always
call-Always m h w = let (a, e) = ok_of (m w).0 (h w) in (a, e, tt)
