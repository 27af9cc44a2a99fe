-- ===== src/Core/Result/Keeps.antt =====
-- A property of the world that an action keeps, however it ends.
use dynamic_routes_provision.Base.{String, Bool, true, false, if◌then◌else◌}
use dynamic_routes_provision.Core.Result.{
  Error, Result, ok, err, panic, Action, lift, continue, ◌>>=◌, handle, try_catch, wrapping, after,
  deferred,
}

module _ {W : Type 0} (P : W → Type 0) where
  unfoldable pub Keeps : {A : Type 0} → Action W A → Type 0
  Keeps m = (w : W) → P w → P (m w).1

  -- An action that leaves the world as it is.
  pub lift-Keeps : {A : Type 0} (r : Result A) → Keeps (lift r)
  unfolding Keeps
  lift-Keeps r w h = h

  pub wrapping-Keeps :
      {A : Type 0} (context : String) (m : Action W A) → Keeps m → Keeps (wrapping context m)
  unfolding Keeps
  wrapping-Keeps context m km w h = km w h

  continue-Keeps :
      {A B : Type 0} (r : Result A) (f : A → Action W B) (w : W)
      → P w
      → ((a : A) → Keeps (f a))
      → P (continue r f w).1
  unfolding Keeps
  continue-Keeps (ok a) f w h k = k a w h
  continue-Keeps (err e) f w h k = h
  continue-Keeps panic f w h k = h

  pub bind-Keeps :
      {A B : Type 0} (m : Action W A) (f : A → Action W B)
      → Keeps m
      → ((a : A) → Keeps (f a))
      → Keeps (m >>= f)
  unfolding Keeps
  bind-Keeps m f km kf w h = continue-Keeps (m w).0 f (m w).1 (km w h) kf

  handle-Keeps :
      {A B : Type 0} (r : Result A) (g : Error → Action W B) (f : A → Action W B) (w : W)
      → P w
      → ((e : Error) → Keeps (g e))
      → ((a : A) → Keeps (f a))
      → P (handle r g f w).1
  unfolding Keeps
  handle-Keeps (ok a) g f w h kg kf = kf a w h
  handle-Keeps (err e) g f w h kg kf = kg e w h
  handle-Keeps panic g f w h kg kf = h

  pub try_catch-Keeps :
      {A B : Type 0} (m : Action W A) (g : Error → Action W B) (f : A → Action W B)
      → Keeps m
      → ((e : Error) → Keeps (g e))
      → ((a : A) → Keeps (f a))
      → Keeps (try_catch m g f)
  unfolding Keeps
  try_catch-Keeps m g f km kg kf w h = handle-Keeps (m w).0 g f (m w).1 (km w h) kg kf

  pub if-Keeps :
      {A : Type 0} (b : Bool) (m n : Action W A) → Keeps m → Keeps n → Keeps (if b then m else n)
  if-Keeps true m n km kn = km
  if-Keeps false m n km kn = kn

  after-world : {A B : Type 0} (r : Result A) (s : Result B) (w : W) → P w → P (after r (s, w)).1
  after-world r (ok b) w h = h
  after-world r (err e) w h = h
  after-world r panic w h = h

  -- A bracket: the deferred call makes `P` true again, whatever happened before it.
  pub deferred-restores :
      {A B : Type 0} (f : Action W B) (m : Action W A) (w : W)
      → P (f (m w).1).1
      → P (deferred f m w).1
  deferred-restores f m w h = after-world (m w).0 (f (m w).1).0 (f (m w).1).1 h
