-- ===== src/Impl/CertNone.antt =====
-- impl/cert-none/issuer.go: the issuer for certificates that another system manages.
use dynamic_routes_provision.Base.{none}
use dynamic_routes_provision.Core.Result.{pure}
use dynamic_routes_provision.Core.Interfaces.{Issuer}

-- `Issue` returns `nil, nil`.
abbrev pub none_issuer : {W : Type 0} → Issuer W
none_issuer = record { name = "none"; issue = λ req. pure none; revoke = λ cert. pure tt }
