-- ===== src/Impl/SourceHttp/Sending.antt =====
-- impl/source-http/source.go: the handlers that are about to send, one of which is next.
use mathlib.Core.Option
use mathlib.Core.Option.{some-injective}
use mathlib.Core.Path.{subst}
use mathlib.Core.List.{append_assoc, Perm, perm_middle, perm_append_singleton, perm-append_left_iff}
use mathlib.Core.List.Perm
use dynamic_routes_provision.Base.{
  ℕ, zero, suc, ◌≡◌, refl, ap, Option, none, some, List, [], ◌∷◌, ◌++◌, All, map, length,
}
use dynamic_routes_provision.Core.Route.{RouteEvent}
use dynamic_routes_provision.Impl.SourceHttp.{pick}

-- An event that a part of a list passes.
pub passed :
    {A : Type 0} {a : A} (l : List A) {x y : List A} → Perm x (a ∷ y) → Perm (l ++ x) (a ∷ (l ++ y))
passed l {y = y} p = Perm.trans ((perm-append_left_iff l).1 p) (perm_middle l y)

pub last_first : {A : Type 0} (l : List A) (a : A) → Perm (l ++ a ∷ []) (a ∷ l)
last_first l a = perm_append_singleton a l

pub appended : {A : Type 0} (l r : List A) (a : A) → Perm ((l ++ a ∷ []) ++ r) (a ∷ (l ++ r))
appended l r a = rw (append_assoc l (a ∷ []) r) (perm_middle l r)

-- A member of a list, and the others.
pub data Picked {A : Type 0} (x : A) : List A → List A → Type 0 where
  here : {l : List A} → Picked x (x ∷ l) l
  there : {y : A} {l rest : List A} → Picked x l rest → Picked x (y ∷ l) (y ∷ rest)

Picked-next :
    {A : Type 0} {z : A} {l : List A} (o : Option (A × List A)) {x : A} {rest : List A}
    → ((y : A) (others : List A) → o ≡ some (y, others) → Picked y l others)
    → Option.map {B = A × List A} (λ y. (y.0, z ∷ y.1)) o ≡ some (x, rest)
    → Picked x (z ∷ l) rest
Picked-next none f h = cc
Picked-next {A} {z} {l} (some (y, others)) f h =
    subst (λ (p : A × List A). Picked p.0 (z ∷ l) p.1) (some-injective _ _ h)
      (there (f y others refl))

pub pick-Picked :
    {A : Type 0} (n : ℕ) (l : List A) (x : A) (rest : List A)
    → pick n l ≡ some (x, rest)
    → Picked x l rest
unfolding pick
pick-Picked n [] x rest h = cc
pick-Picked {A} zero (y ∷ l) x rest h =
    subst (λ (p : A × List A). Picked p.0 (y ∷ l) p.1) (some-injective _ _ h) here
pick-Picked (suc n) (y ∷ l) x rest h = Picked-next (pick n l) (pick-Picked n l) h

pub Picked-perm :
    {x : Option ℕ × RouteEvent} {l rest : List (Option ℕ × RouteEvent)}
    → Picked x l rest
    → Perm (map (λ y. y.1) l) (x.1 ∷ map (λ y. y.1) rest)
Picked-perm {l = x ∷ l} here = Perm.refl _
Picked-perm {x} (there {y = y} {rest = rest} p) = passed (y.1 ∷ []) (Picked-perm p)

pub Picked-all :
    {x : Option ℕ × RouteEvent} {l rest : List (Option ℕ × RouteEvent)} (id : ℕ)
    → Picked x l rest
    → All (λ (y : Option ℕ × RouteEvent). y.0 ≡ some id) l
    → (x.0 ≡ some id) × All (λ (y : Option ℕ × RouteEvent). y.0 ≡ some id) rest
Picked-all id here h = h
Picked-all id (there p) h = let (a, b) = Picked-all id p h.1 in (a, (h.0, b))

pub Picked-length :
    {A : Type 0} {x : A} {l rest : List A} → Picked x l rest → length l ≡ suc (length rest)
Picked-length here = refl
Picked-length (there p) = ap suc (Picked-length p)
