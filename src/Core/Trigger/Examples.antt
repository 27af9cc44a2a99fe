-- ===== src/Core/Trigger/Examples.antt =====
-- The theorem on composite triggers, at two children that fail one after the other.
use dynamic_routes_provision.Base.{◌≡◌, none, some, [], ◌∷◌}
use dynamic_routes_provision.Core.Result.{errorf}
use dynamic_routes_provision.Core.Trigger.{
  returned, context_done, start, first_error, start-first_error,
}

start-first_error_example :
    start (
      returned none
      ∷ returned (some (errorf "stream lost"))
      ∷ returned (some (errorf "context canceled"))
      ∷ context_done
      ∷ [])
    ≡ some (errorf "stream lost")
unfolding first_error
start-first_error_example = start-first_error (
    returned none
    ∷ returned (some (errorf "stream lost"))
    ∷ returned (some (errorf "context canceled"))
    ∷ context_done
    ∷ [])
