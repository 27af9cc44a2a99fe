-- ===== src/Cmd/Names.antt =====
-- The names and texts that the mappers of cmd/routes-provisioner/internal and the certificate stores derive
-- from a host: `strings.ReplaceAll` and `strings.NewReplacer` with the texts that the code replaces.
use Prim.Native.Char.{Char, code}
use Prim.Native.Nat.{◌%◌, ◌/◌}
use Prim.Native.String as Text
use dynamic_routes_provision.Base.{
  String, ℕ, zero, suc, ◌⧺◌, ◌≡◌, refl, ap, eqb, ltb, if◌then◌else◌, Bool-cases, inl, inr,
}

abbrev dash : Char
dash = "-"

-- `strings.ReplaceAll(s, ".", "-")`
unfoldable pub dashed : String → String
dashed Text.[] = Text.[]
dashed (Text.◌∷◌ c s) =
    let rest = dashed s in if eqb (code c) b'.' then Text.◌∷◌ dash rest else Text.◌∷◌ c rest

-- `strings.NewReplacer(".", "-", "*", "wildcard").Replace(s)`
unfoldable pub safe_name : String → String
safe_name Text.[] = Text.[]
safe_name (Text.◌∷◌ c s) =
    let rest = safe_name s in
    if eqb (code c) b'.'
    then Text.◌∷◌ dash rest
    else if eqb (code c) b'*'
    then "wildcard" ⧺ rest
    else Text.◌∷◌ c rest

-- `if len(name) > 253 { name = name[:253] }`; a text that is not ASCII is cut at a character.
unfoldable pub truncated : String → String
truncated name = if ltb 253 (Text.len name) then Text.slice name 0 253 else name

-- `%d`: the last digit stands after the digits of the tenth part. The number itself is enough fuel.
last_digit : ℕ → String
last_digit n = Text.slice "0123456789" (n % 10) (suc (n % 10))

digits : ℕ → ℕ → String
unfolding last_digit
digits zero n = ""
digits (suc fuel) n =
    let front = digits fuel (n / 10) in (if ltb n 10 then "" else front) ⧺ last_digit n

unfoldable pub decimal : ℕ → String
unfolding digits
decimal n = digits (suc n) n

-- A host and the host with its dots replaced are named alike.
pub dashed_idem : (s : String) → dashed (dashed s) ≡ dashed s
unfolding dashed
dashed_idem Text.[] = refl
dashed_idem (Text.◌∷◌ c s) = elim (Bool-cases (eqb (code c) b'.')) [
  | inl dot ↦ simp dot (ap (λ (r : String). Text.◌∷◌ dash r) (dashed_idem s))
  | inr plain ↦ simp plain (ap (λ (r : String). Text.◌∷◌ c r) (dashed_idem s))
]

-- The same of the names of certificates, with `*` beside the dots.
pub safe_name-dashed : (s : String) → safe_name (dashed s) ≡ safe_name s
unfolding safe_name dashed
safe_name-dashed Text.[] = refl
safe_name-dashed (Text.◌∷◌ c s) = elim (Bool-cases (eqb (code c) b'.')) [
  | inl dot ↦ simp dot (ap (λ (r : String). Text.◌∷◌ dash r) (safe_name-dashed s))
  | inr plain ↦ simp plain (
      ap (λ (r : String). if eqb (code c) b'*' then "wildcard" ⧺ r else Text.◌∷◌ c r)
        (safe_name-dashed s))
]
