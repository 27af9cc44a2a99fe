-- ===== src/Core/Trigger.antt =====
-- core/trigger/composite.go: several triggers as one. Each child runs in a goroutine of its own and
-- sends to the one channel; the return of a child, with the check of the context and `once.Do`, is one
-- step, and so is the cancellation of the context.
mod Examples
use dynamic_routes_provision.Base.{
  String, ◌⧺◌, ◌≡◌, refl, Bool, true, false, Option, none, some, List, [], ◌∷◌,
}
use dynamic_routes_provision.Core.Result.{Error}

-- `firstErr`, and whether the context that the children share is cancelled.
pub record FanIn : Type 0 where
  pub first_err : Option Error
  pub cancelled : Bool

pub data Happening : Type 0 where
  returned : Option Error → Happening
  context_done : Happening

-- `strings.Join(names, ", ")`
joined : List String → String
joined [] = ""
joined (name ∷ []) = name
joined (name ∷ (next ∷ rest)) = name ⧺ ", " ⧺ joined (next ∷ rest)

pub composite_name : List String → String
unfolding joined
composite_name names = "composite(" ⧺ joined names ⧺ ")"

child_failed : Error → Bool → FanIn → FanIn
child_failed e true s = s
child_failed e false s = record { first_err = some e; cancelled = true }

happen : Happening → FanIn → FanIn
unfolding child_failed
happen (returned none) s = s
happen (returned (some e)) s = child_failed e s.cancelled s
happen context_done s = record s { cancelled = true }

-- What `Start` returns after these happenings, by which every child has returned.
fan_in : List Happening → FanIn → FanIn
unfolding happen
fan_in [] s = s
fan_in (h ∷ hs) s = fan_in hs (happen h s)

pub start : List Happening → Option Error
unfolding fan_in
start hs = (fan_in hs (record { first_err = none; cancelled = false })).first_err

-- The first error of a child, unless the context was cancelled before it.
pub first_error : List Happening → Option Error
first_error [] = none
first_error (returned none ∷ hs) = first_error hs
first_error (returned (some e) ∷ hs) = some e
first_error (context_done ∷ hs) = none

-- Once the context is cancelled, the error stays what it is.
fan_in-cancelled :
    (hs : List Happening) (o : Option Error)
    → (fan_in hs (record { first_err = o; cancelled = true })).first_err ≡ o
unfolding fan_in
fan_in-cancelled [] o = refl
fan_in-cancelled (returned none ∷ hs) o = fan_in-cancelled hs o
fan_in-cancelled (returned (some e) ∷ hs) o = fan_in-cancelled hs o
fan_in-cancelled (context_done ∷ hs) o = fan_in-cancelled hs o

-- A composite trigger returns the error of the child that failed first, whatever the error is; when
-- none failed before the context was cancelled, it returns none, whatever the children returned after
-- that.
pub start-first_error : (hs : List Happening) → start hs ≡ first_error hs
unfolding start first_error fan_in
start-first_error [] = refl
start-first_error (returned none ∷ hs) = start-first_error hs
start-first_error (returned (some e) ∷ hs) = fan_in-cancelled hs (some e)
start-first_error (context_done ∷ hs) = fan_in-cancelled hs none
