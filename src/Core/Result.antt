-- ===== src/Core/Result.antt =====
-- Go's `error` values and multiple results. A function that returns `(T, error)` is a `Result`;
-- `panic` is a run-time panic, which no caller of this program recovers from.
pub mod Rules
pub mod Keeps
pub mod Always
use dynamic_routes_provision.Base.{String}

-- `errorf` is an error made by the program or by a library; `wrap` is `fmt.Errorf("ctx: %w", err)`.
pub data Error : Type 0 where
  errorf : String → Error
  wrap : String → Error → Error

pub data Result {ℓ} (A : Type ℓ) : Type ℓ where
  ok : A → Result A
  err : Error → Result A
  panic : Result A

abbrev pub IsOk {ℓ} : {A : Type ℓ} → Result A → Type 0
IsOk (ok a) = Unit
IsOk (err e) = ⊥
IsOk panic = ⊥

-- An action on a world `W`: what it wrote before an error or a panic stays written.
abbrev pub Action {ℓ} : Type ℓ → Type ℓ → Type ℓ
Action W A = W → Result A × W

module _ {ℓ} {W A : Type ℓ} where
  abbrev pub pure : A → Action W A
  pure a w = (ok a, w)

  abbrev pub raise : Error → Action W A
  raise e w = (err e, w)

  abbrev pub crash : Action W A
  crash w = (panic, w)

  abbrev pub lift : Result A → Action W A
  lift r w = (r, w)

module _ {ℓ} {W A B : Type ℓ} where
  abbrev pub continue : Result A → (A → Action W B) → Action W B
  continue (ok a) f w = f a w
  continue (err e) f w = (err e, w)
  continue panic f w = (panic, w)

  infixl 10 ◌>>=◌ ◌>>◌
  abbrev pub ◌>>=◌ : Action W A → (A → Action W B) → Action W B
  ◌>>=◌ m f w = let (r, w') = m w in continue r f w'

  abbrev pub ◌>>◌ : Action W A → Action W B → Action W B
  m >> n = m >>= λ _. n

  -- `r, err := m(); if err != nil { return h(err) }`, with another continuation for success.
  abbrev pub handle : Result A → (Error → Action W B) → (A → Action W B) → Action W B
  handle (ok a) h f w = f a w
  handle (err e) h f w = h e w
  handle panic h f w = (panic, w)

  abbrev pub try_catch : Action W A → (Error → Action W B) → (A → Action W B) → Action W B
  try_catch m h f w = let (r, w') = m w in handle r h f w'

-- `fmt.Errorf("context: %w", err)` around a result.
abbrev pub wrapped {ℓ} : {A : Type ℓ} → String → Result A → Result A
wrapped context (ok a) = ok a
wrapped context (err e) = err (wrap context e)
wrapped context panic = panic

abbrev pub wrapping {ℓ} : {W A : Type ℓ} → String → Action W A → Action W A
wrapping context m w = let (r, w') = m w in (wrapped context r, w')

-- `defer f()`: `f` runs when the rest has returned or panicked; its own error is dropped.
module _ {W A B : Type 0} where
  abbrev pub after : Result A → Result B × W → Result A × W
  after r (ok b, w) = (r, w)
  after r (err e, w) = (r, w)
  after r (panic, w) = (panic, w)

  abbrev pub deferred : Action W B → Action W A → Action W A
  deferred f m w = let (r, w') = m w in after r (f w')
