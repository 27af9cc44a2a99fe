-- ===== src/Cmd/LogHandler.antt =====
-- cmd/routes-provisioner/internal/config/loghandler.go: the text handler of the log. The writer is a
-- parameter; the mutex makes each write one step. Values are the texts of `a.Value.String()`, the
-- level is a number, counted from the lowest, with the text that names it.
pub mod Lines
use Prim.Native.String as Text
use dynamic_routes_provision.Base.{
  String, ℕ, ◌-◌, ◌⧺◌, ◌==◌, Bool, List, [], ◌∷◌, ◌++◌, leb, if◌then◌else◌,
}
use dynamic_routes_provision.Core.Result.{Action}

pub record Attr : Type 0 where
  pub key : String
  pub value : String

pub record TextHandler : Type 0 where
  pub level : ℕ
  pub attrs : List Attr
  pub group : String

pub record Record : Type 0 where
  pub level_text : String
  pub message : String
  pub attrs : List Attr

pub new_text_handler : ℕ → TextHandler
new_text_handler level = record { level = level; attrs = []; group = "" }

pub enabled : ℕ → TextHandler → Bool
enabled level h = leb h.level level

-- What `Handle` collects from attributes: the component, and the others.
pub record Collected : Type 0 where
  pub component : String
  pub extras : List Attr

collect_one : Attr → Collected → Collected
collect_one a c =
    if a.key == "component"
    then record c { component = a.value }
    else record c { extras = c.extras ++ a ∷ [] }

unfoldable pub collect : List Attr → Collected → Collected
unfolding collect_one
collect [] c = c
collect (a ∷ rest) c = collect rest (collect_one a c)

-- `%-5s `: padded to five characters on the right.
padded : String → String
padded s = s ⧺ Text.slice "     " 0 (5 - Text.len s) ⧺ " "

in_brackets : String → String
in_brackets component = if component == "" then "" else "[" ⧺ component ⧺ "] "

pairs : List Attr → String
pairs [] = ""
pairs (a ∷ rest) = " " ⧺ a.key ⧺ "=" ⧺ a.value ⧺ pairs rest

-- Level, component, message and the other attributes.
format : Record → Collected → String
unfolding padded in_brackets pairs
format r c = padded r.level_text ⧺ in_brackets c.component ⧺ r.message ⧺ pairs c.extras ⧺ "\n"

pub line : TextHandler → Record → String
unfolding collect format
line h r = format r (collect r.attrs (collect h.attrs (record { component = ""; extras = [] })))

pub handle :
    {W : Type 0} → (String → Action W (Unit {0})) → TextHandler → Record → Action W (Unit {0})
unfolding line
handle write h r = write (line h r)

pub with_attrs : List Attr → TextHandler → TextHandler
with_attrs attrs h = record h { attrs = h.attrs ++ attrs }

pub with_group : String → TextHandler → TextHandler
with_group name h = record h { group = name }
