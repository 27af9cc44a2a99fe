-- ===== src/Cmd/NetscalerMapper/Order.antt =====
-- cmd/routes-provisioner/internal/provisioner/netscaler_mapper.go: the order of the operations, and
-- the resources that they add and delete.
use dynamic_routes_provision.Base.{
  String, ℕ, suc, ◌+◌, ◌⧺◌, ◌≡◌, refl, ap, Bool, true, false, ◌&&◌, Option, none, some, List, [],
  ◌∷◌, ◌++◌, arith, ◌==◌, eq_refl, if◌then◌else◌, any, all, length,
}
use dynamic_routes_provision.Core.Dict.{lookup}
use dynamic_routes_provision.Core.Route.{RouteRequest, Backend, Certificate}
use dynamic_routes_provision.Impl.ProvisionerNetscaler.Nitro.{
  NitroAction, add, update, delete, bind, unbind, other, Value, str, num, NitroOperation,
}
use dynamic_routes_provision.Cmd.NetscalerMapper.{
  route_id, service_name, services, bind_cert, provision_ops, deprovision_ops,
}

-- A resource by its type and name.
abbrev pub Object : Type 0
Object = String × String

text_of : Option Value → String
text_of (some (str s)) = s
text_of (some (num n)) = ""
text_of none = ""

-- What a binding joins: its virtual server, and the service or the certificate that a property names.
pub refers : NitroOperation → List Object
unfolding text_of lookup
refers op =
    if op.resource.type == "lbvserver_service_binding"
    then ("lbvserver", op.resource.name)
      ∷ ("service", text_of (lookup "servicename" op.resource.properties))
      ∷ []
    else if op.resource.type == "sslvserver_sslcertkey_binding"
    then ("lbvserver", op.resource.name)
      ∷ ("sslcertkey", text_of (lookup "certkeyname" op.resource.properties))
      ∷ []
    else []

abbrev known : List Object → Object → Bool
known objects (type, name) = any (λ o. (o.0 == type) && (o.1 == name)) objects

after : NitroAction → Object → List Object → List Object
after add o objects = o ∷ objects
after update o objects = objects
after delete o objects = objects
after bind o objects = objects
after unbind o objects = objects
after (other s) o objects = objects

-- Each operation refers only to resources that are there: those given, and those added before it.
pub ready : List Object → List NitroOperation → Bool
unfolding refers after
ready objects [] = true
ready objects (op ∷ rest) =
    all (known objects) (refers op)
    && ready (after op.action (op.resource.type, op.resource.name) objects) rest

-- The certificate is there, if there is one.
abbrev HasCert : String → Option Certificate → List Object → Type 0
HasCert id none objects = Unit
HasCert id (some cert) objects = known objects ("sslcertkey", id ⧺ "-cert") ≡ true

ready-bind_cert :
    (id : String) (cert : Option Certificate) (objects : List Object)
    → known objects ("lbvserver", id) ≡ true
    → HasCert id cert objects
    → ready objects (bind_cert id cert) ≡ true
unfolding ready bind_cert
ready-bind_cert id none objects h k = refl
ready-bind_cert id (some cert) objects h k = ground arith

HasCert-cons :
    (id : String) (cert : Option Certificate) (objects : List Object) (o : Object)
    → HasCert id cert objects
    → HasCert id cert (o ∷ objects)
HasCert-cons id none objects o h = tt
HasCert-cons id (some cert) objects o h = ground arith

ready-services :
    (id : String) (cert : Option Certificate) (i : ℕ) (bs : List Backend) (objects : List Object)
    → known objects ("lbvserver", id) ≡ true
    → HasCert id cert objects
    → ready objects (services id i bs ++ bind_cert id cert) ≡ true
unfolding ready services
ready-services id cert i [] objects h k = ready-bind_cert id cert objects h k
ready-services id cert i (b ∷ rest) objects h k =
    let name = service_name id i in
    ground (
      arith,
      eq_refl name,
      ready-services id cert (suc i) rest (("service", name) ∷ objects) (ground arith)
          (HasCert-cons id cert objects ("service", name) k),
    )

-- The operations that make a route are in a proper order, whatever the route, its services and its
-- certificate: each binding joins a server, a service or a certificate that an earlier operation of
-- the same list has added.
pub provision_ops-ready :
    (base64 : List ℕ → String) (req : RouteRequest) (cert : Option Certificate)
    → ready [] (provision_ops base64 req cert) ≡ true
unfolding provision_ops ready
provision_ops-ready base64 req none =
    let id = route_id req in
    ready-services id none 0 req.backends (("lbvserver", id) ∷ []) (ground (arith, eq_refl id)) tt
provision_ops-ready base64 req (some cert) =
    let id = route_id req in
    ready-services id (some cert) 0 req.backends
      (("lbvserver", id)
        ∷ ("sslcertkey", id ⧺ "-cert")
        ∷ ("systemfile", id ⧺ ".key")
        ∷ ("systemfile", id ⧺ ".crt")
        ∷ [])
      (ground (arith, eq_refl id)) (ground (arith, eq_refl (id ⧺ "-cert")))

is_add : NitroAction → Bool
is_add add = true
is_add update = false
is_add delete = false
is_add bind = false
is_add unbind = false
is_add (other s) = false

is_delete : NitroAction → Bool
is_delete delete = true
is_delete add = false
is_delete update = false
is_delete bind = false
is_delete unbind = false
is_delete (other s) = false

-- How many operations of a kind are about resources of a type.
pub count_ops : (NitroAction → Bool) → String → List NitroOperation → ℕ
count_ops kind type [] = 0
count_ops kind type (op ∷ rest) =
    let later = count_ops kind type rest in
    if kind op.action && (op.resource.type == type) then suc later else later

pub added : String → List NitroOperation → ℕ
unfolding is_add count_ops
added = count_ops is_add

pub deleted : String → List NitroOperation → ℕ
unfolding is_delete count_ops
deleted = count_ops is_delete

count_ops-append :
    (kind : NitroAction → Bool) (type : String) (xs ys : List NitroOperation)
    → count_ops kind type (xs ++ ys) ≡ count_ops kind type xs + count_ops kind type ys
unfolding count_ops
count_ops-append kind type [] ys = omega arith
count_ops-append kind type (op ∷ xs) ys = ground (arith, count_ops-append kind type xs ys)

added-services :
    (id : String) (i : ℕ) (bs : List Backend) → added "service" (services id i bs) ≡ length bs
unfolding added services
added-services id i [] = refl
added-services id i (b ∷ rest) = ap suc (added-services id (suc i) rest)

added-bind_cert :
    (id : String) (cert : Option Certificate) → added "service" (bind_cert id cert) ≡ 0
unfolding added bind_cert
added-bind_cert id none = refl
added-bind_cert id (some cert) = refl

added-tail :
    (req : RouteRequest) (cert : Option Certificate)
    → added "service" (services (route_id req) 0 req.backends ++ bind_cert (route_id req) cert)
      ≡ length req.backends
unfolding added
added-tail req cert = ground (
  arith,
  count_ops-append is_add "service" (services (route_id req) 0 req.backends)
      (bind_cert (route_id req) cert),
  added-services (route_id req) 0 req.backends,
  added-bind_cert (route_id req) cert,
)

-- A route with n backends adds n services, and the operations that remove a route delete none of
-- them: each removal leaves the services of the route behind.
pub services_left :
    (base64 : List ℕ → String) (req : RouteRequest) (cert : Option Certificate) (id : String)
    → (added "service" (provision_ops base64 req cert) ≡ length req.backends)
      × (deleted "service" (deprovision_ops id) ≡ 0)
unfolding provision_ops added deleted deprovision_ops
services_left base64 req none id = (added-tail req none, refl)
services_left base64 req (some cert) id = (added-tail req (some cert), refl)
