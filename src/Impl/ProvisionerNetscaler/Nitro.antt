-- ===== src/Impl/ProvisionerNetscaler/Nitro.antt =====
-- impl/provisioner-netscaler/nitro.go: the client of the Nitro REST API. The HTTP client, the
-- parser of URLs and the JSON decoder are parameters; a request's body is kept as the value that is
-- marshalled.
use dynamic_routes_provision.Base.{
  String, ℕ, ◌⧺◌, Option, none, some, List, [], ◌∷◌, map, leb, if◌then◌else◌, ◌==◌,
}
use dynamic_routes_provision.Core.Dict.{Dict, insert}
use dynamic_routes_provision.Core.Result.{
  Error, errorf, wrap, Result, Action, pure, raise, ◌>>=◌, wrapping,
}
use dynamic_routes_provision.Cmd.Names.{decimal}

-- A Go string type; `other` stands for each string that is not one of the constants.
pub data NitroAction : Type 0 where
  add update delete bind unbind : NitroAction
  other : String → NitroAction

unfoldable pub action_text : NitroAction → String
action_text add = "add"
action_text update = "update"
action_text delete = "delete"
action_text bind = "bind"
action_text unbind = "unbind"
action_text (other s) = s

-- The values of `map[string]any` that the mappers use: texts and ints.
pub data Value : Type 0 where
  str : String → Value
  num : ℕ → Value

pub record NitroResource : Type 0 where
  pub type : String
  pub name : String
  pub properties : Dict Value

pub record NitroOperation : Type 0 where
  pub action : NitroAction
  pub resource : NitroResource

-- The payload of one resource: its type, and the properties under it.
pub record Payload : Type 0 where
  pub type : String
  pub properties : Dict Value

-- What is marshalled: one payload, or a batch of payloads, each with its action.
pub data Body : Type 0 where
  single : Payload → Body
  batch : List (Payload × String) → Body

pub record Request : Type 0 where
  pub method : String
  pub url : String
  pub body : Option Body
  pub username : String
  pub password : String

pub record Response : Type 0 where
  pub status_code : ℕ
  pub body : String

-- `url_error` is the error of `http.NewRequestWithContext`, if it has one; `decode` reads the
-- resources of a type from a response's body.
pub record NitroClient (W : Type 0) : Type 0 where
  pub endpoint : String
  pub username : String
  pub password : String
  pub send : Request → Action W Response
  pub url_error : String → Option Error
  pub decode : String → String → Result (List (Dict Value))

unfoldable pub set_all : Dict Value → Dict Value → Dict Value
set_all [] props = props
set_all ((k, v) ∷ rest) props = set_all rest (insert k v props)

-- The resource's own properties win over its name.
unfoldable pub build_payload : NitroResource → Payload
unfolding set_all insert
build_payload res = record {
  type = res.type;
  properties = set_all res.properties (("name", str res.name) ∷ []);
}

-- `NitroError.Error`
unfoldable pub nitro_error : String → String → Response → Error
nitro_error method url resp =
    errorf
      ("nitro " ⧺ method ⧺ " " ⧺ url ⧺ " returned " ⧺ decimal resp.status_code ⧺ ": " ⧺ resp.body)

module _ {W : Type 0} (c : NitroClient W) where
  -- A response with a status of 400 or more is an error.
  unfoldable pub check_status : String → String → Response → Action W Response
  unfolding nitro_error
  check_status method url resp =
      if leb 400 resp.status_code then raise (nitro_error method url resp) else pure resp

  -- A request, its response checked; the context is that of a failed request.
  unfoldable pub request : String → String → String → Option Body → Action W Response
  unfolding check_status
  request context method url body = elim (c.url_error url) [
    | some e ↦ raise (wrap "create request" e)
    | none ↦
        wrapping context (
          c.send (record {
            method = method;
            url = url;
            body = body;
            username = c.username;
            password = c.password;
          }))
        >>= check_status method url
  ]

  -- `do`
  unfoldable pub do_request : String → String → Option Body → Action W (Unit {0})
  unfolding request
  do_request method url body = request "nitro request failed" method url body >>= λ _. pure tt

  unfoldable pub do_post : NitroResource → Action W (Unit {0})
  unfolding do_request build_payload
  do_post res =
      do_request "POST" (c.endpoint ⧺ "/nitro/v1/config/" ⧺ res.type)
        (some (single (build_payload res)))

  unfoldable pub do_put : NitroResource → Action W (Unit {0})
  unfolding do_request build_payload
  do_put res =
      do_request "PUT" (c.endpoint ⧺ "/nitro/v1/config/" ⧺ res.type)
        (some (single (build_payload res)))

  unfoldable pub do_delete : NitroResource → Action W (Unit {0})
  unfolding do_request
  do_delete res =
      do_request "DELETE" (c.endpoint ⧺ "/nitro/v1/config/" ⧺ res.type ⧺ "/" ⧺ res.name) none

  unfoldable pub execute_action : NitroAction → NitroResource → Action W (Unit {0})
  unfolding do_post do_put do_delete
  execute_action add res = do_post res
  execute_action update res = do_put res
  execute_action delete res = do_delete res
  execute_action bind res = do_post res
  execute_action unbind res = do_post res
  execute_action (other s) res = raise (errorf ("unknown action: " ⧺ s))

  unfoldable pub execute : NitroOperation → Action W (Unit {0})
  unfolding execute_action
  execute op = execute_action op.action op.resource

  unfoldable pub list_url : String → String → String
  list_url resource_type filter =
      let url = c.endpoint ⧺ "/nitro/v1/config/" ⧺ resource_type in
      if filter == "" then url else url ⧺ "?filter=" ⧺ filter

  -- `List`
  unfoldable pub list_resources : String → String → Action W (List (Dict Value))
  unfolding request list_url
  list_resources resource_type filter = do
    resp ← request "nitro list request failed" "GET" (list_url resource_type filter) none
    λ w. (c.decode resource_type resp.body, w)

  unfoldable pub batch_body : List NitroOperation → List (Payload × String)
  unfolding build_payload action_text
  batch_body = map λ op. (build_payload op.resource, action_text op.action)

  -- `BatchExecute`: one request for all operations, and none for an empty batch.
  unfoldable pub batch_execute : List NitroOperation → Action W (Unit {0})
  unfolding batch_body do_request
  batch_execute [] = pure tt
  batch_execute (op ∷ rest) =
      do_request "POST" (c.endpoint ⧺ "/nitro/v1/config/") (some (batch (batch_body (op ∷ rest))))
