-- ===== src/Cmd/LogHandler/Lines.antt =====
-- cmd/routes-provisioner/internal/config/loghandler.go: the lines of handlers that were derived from
-- others.
use dynamic_routes_provision.Base.{String, ◌≡◌, refl, ap, List, [], ◌∷◌, ◌++◌, ◌∙◌, sym}
use dynamic_routes_provision.Cmd.LogHandler.{
  Attr, TextHandler, Record, Collected, format, collect, collect_one, line, with_attrs, with_group,
}

collect-append :
    (xs ys : List Attr) (c : Collected) → collect (xs ++ ys) c ≡ collect ys (collect xs c)
unfolding collect
collect-append [] ys c = refl
collect-append (x ∷ xs) ys c = collect-append xs ys (collect_one x c)

-- Attributes that a handler was given before write the line that they write in the record, ahead of
-- the record's own.
pub line-with_attrs :
    (attrs : List Attr) (h : TextHandler) (r : Record)
    → line (with_attrs attrs h) r ≡ line h (record r { attrs = attrs ++ r.attrs })
unfolding line with_attrs format
line-with_attrs attrs h r =
    let empty : Collected = record { component = ""; extras = [] } in
    ap (λ (c : Collected). format r c)
      (ap (collect r.attrs) (collect-append h.attrs attrs empty)
        ∙ sym (collect-append attrs r.attrs (collect h.attrs empty)))

-- The name of a group changes no line.
pub line-with_group :
    (name : String) (h : TextHandler) (r : Record) → line (with_group name h) r ≡ line h r
unfolding line with_group
line-with_group name h r = refl
