-- ===== src/Impl/CertstoreVault/Examples.antt =====
-- The theorems on the cache, at a Vault that can be read but not written, and at one of which each
-- byte is text in unary.
use Prim.Native.Char.{Char, code}
use Prim.Native.String as Text
use dynamic_routes_provision.Base.{
  String, ℕ, zero, suc, ◌≡◌, ◌∙◌, refl, ap, eqb, true, Option, none, some, List, [], ◌∷◌,
  if◌then◌else◌,
}
use dynamic_routes_provision.Core.Result.{errorf, ok, pure, raise}
use dynamic_routes_provision.Core.Route.{RouteRequest, Certificate}
use dynamic_routes_provision.Impl.CertstoreVault.{
  CachingIssuer, Clock, issue, to_data, secret_to_cert,
}
use dynamic_routes_provision.Impl.VaultApi.{Bytes}
use dynamic_routes_provision.Impl.CertstoreVault.Roundtrip.{
  IsClock, IsBytes, secret_to_cert-to_data,
}
use dynamic_routes_provision.Impl.CertstoreVault.Answers.{stored, fresh, answer, issue-answers}

abbrev made : Certificate
made = record {
  host = "a.example";
  cert_pem = 1 ∷ [];
  key_pem = 2 ∷ [];
  ca_cert_pem = [];
  not_before = 0;
  not_after = 1000;
  issuer_name = "inner";
}

abbrev read_only : CachingIssuer (Unit {0})
read_only = record {
  inner = record { name = "inner"; issue = λ req. pure (some made); revoke = λ cert. pure tt };
  logical = record {
    read = λ path. pure none;
    write = λ path fields. raise (errorf "permission denied");
    delete = λ path. pure none;
  };
  clock = record { now = λ w. 0; format = λ t. "0"; parse = λ s. some 0 };
  conversions = record { bytes = λ s. []; text = λ bs. "" };
  mount = "secret";
  prefix = "route-tls";
  renew_before = 30;
}

abbrev a_example : RouteRequest
a_example = record {
  id = "";
  host = "a.example";
  path = "/";
  backends = [];
  tls = true;
  metadata = [];
  created_at = 0;
}

issue-answers_example : (issue read_only a_example tt).0 ≡ ok (some made)
unfolding stored fresh answer
issue-answers_example =
    issue-answers read_only a_example (λ path fields v h. cc) (λ v h. cc) tt (λ h. cc)

abbrev mark : Char
mark = "|"

abbrev end_mark : Char
end_mark = "."

-- A byte as that many marks, and an end.
marks : ℕ → String → String
marks zero s = Text.◌∷◌ end_mark s
marks (suc n) s = Text.◌∷◌ mark (marks n s)

unary : List ℕ → String
unfolding marks
unary [] = ""
unary (n ∷ bs) = marks n (unary bs)

bump : List ℕ → List ℕ
bump [] = []
bump (n ∷ bs) = suc n ∷ bs

counted : String → List ℕ
unfolding bump
counted Text.[] = []
counted (Text.◌∷◌ c s) =
    let rest = counted s in if eqb (code c) b'|' then bump rest else zero ∷ rest

counted-marks : (n : ℕ) (s : String) → counted (marks n s) ≡ n ∷ counted s
unfolding marks counted bump
counted-marks zero s = refl
counted-marks (suc n) s = ap bump (counted-marks n s)

counted-unary : (bs : List ℕ) → counted (unary bs) ≡ bs
unfolding unary counted
counted-unary [] = refl
counted-unary (n ∷ bs) = counted-marks n (unary bs) ∙ ap (λ (r : List ℕ). n ∷ r) (counted-unary bs)

abbrev unary_bytes : Bytes
unary_bytes = record { bytes = counted; text = unary }

unary-IsBytes : IsBytes unary_bytes
unfolding counted
unary-IsBytes = record { bytes_text = counted-unary; bytes_empty = refl }

first_of : List ℕ → Option ℕ
first_of [] = none
first_of (n ∷ bs) = some n

-- A time is a number of seconds, in unary too.
abbrev unary_clock : Clock (Unit {0})
unary_clock = record { now = λ w. 0; format = λ t. marks t ""; parse = λ s. first_of (counted s) }

unary_clock-IsClock : IsClock unary_clock
unfolding first_of
unary_clock-IsClock = record {
  seconds = λ t. t;
  parse_format = λ t. ap first_of (counted-marks t "");
}

abbrev in_unary : CachingIssuer (Unit {0})
in_unary = record read_only { clock = unary_clock; conversions = unary_bytes }

secret_to_cert-to_data_example : secret_to_cert in_unary (to_data in_unary made) ≡ some made
unfolding unary_clock-IsClock
secret_to_cert-to_data_example =
    secret_to_cert-to_data in_unary unary_clock-IsClock unary-IsBytes made (λ e. cc) (λ e. cc)
