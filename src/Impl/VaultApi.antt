-- ===== src/Impl/VaultApi.antt =====
-- The client of github.com/hashicorp/vault/api, as impl/cert-vault and impl/certstore-vault call it.
use dynamic_routes_provision.Base.{String, ℕ, Option, List}
use dynamic_routes_provision.Core.Dict.{Dict}
use dynamic_routes_provision.Core.Result.{Action}

-- A value of a response. Of an array, an element that is not a string is none; an object keeps the
-- entries that are strings, since no other is read.
pub data Value : Type 0 where
  string : String → Value
  array : List (Option String) → Value
  object : Dict String → Value
  other : Value

-- A response; its `Data` may be nil.
abbrev pub Secret : Type 0
Secret = Option (Dict Value)

-- `Logical()`; a response that is nil is none.
pub record Logical (W : Type 0) : Type 0 where
  pub read : String → Action W (Option Secret)
  pub write : String → Dict Value → Action W (Option Secret)
  pub delete : String → Action W (Option Secret)

-- The conversions between strings and their bytes.
pub record Bytes : Type 0 where
  pub bytes : String → List ℕ
  pub text : List ℕ → String
