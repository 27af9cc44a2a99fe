-- ===== src/Impl/SourceHttp/Channel.antt =====
-- impl/source-http/source.go: the channel between the handler of events and `Start`.
use mathlib.Core.Option.{some-injective}
use mathlib.Core.Path.{subst}
use mathlib.Core.List.{Perm, perm_middle, perm-append_left_iff}
use mathlib.Core.List.Perm
use dynamic_routes_provision.Base.{
  ℕ, ◌+◌, ◌≤◌, ◌<◌, ◌≡◌, refl, sym, ap, ◌∙◌, Option, none, some, List, [], ◌∷◌, ◌++◌, String, ◌==◌,
  All, map, if_rule, length, length-append, arith,
}
use dynamic_routes_provision.Core.Route.{RouteRequest, RouteEvent}
use dynamic_routes_provision.Impl.SourceHttp.{
  HttpSource, Answer, Decoded, decoded, malformed, Request, post_event, get_events, get_routes,
  post_route, delete_route, starts, stops, takes, passes, sends, put_route, serve, serve_all, start,
  take_one, take_from, pass_from, pass_on, pick, deliver, send_picked, send, read_channel, forward,
  handle_post_event, handle_get_events, handle_post_route, handle_delete_route, handle_get_routes,
}
use dynamic_routes_provision.Impl.SourceHttp.Spec.{to_list}
use dynamic_routes_provision.Impl.SourceHttp.Sending.{
  passed, last_first, appended, Picked, pick-Picked, Picked-perm, Picked-all, Picked-length,
}

-- The events that the requests post, in order.
unfoldable pub posted : List Request → List RouteEvent
posted [] = []
posted (post_event (decoded ev) ∷ rest) = ev ∷ posted rest
posted (post_event (malformed e) ∷ rest) = posted rest
posted (get_events ∷ rest) = posted rest
posted (get_routes ∷ rest) = posted rest
posted (post_route r ∷ rest) = posted rest
posted (delete_route host ∷ rest) = posted rest
posted (starts ∷ rest) = posted rest
posted (stops ∷ rest) = posted rest
posted (takes ∷ rest) = posted rest
posted (passes ∷ rest) = posted rest
posted (sends n ∷ rest) = posted rest

-- `Start` neither begins nor returns.
unfoldable pub Running : Request → Type 0
Running starts = ⊥
Running stops = ⊥
Running (post_event ev) = Unit
Running get_events = Unit
Running get_routes = Unit
Running (post_route r) = Unit
Running (delete_route host) = Unit
Running takes = Unit
Running passes = Unit
Running (sends n) = Unit

-- The events that were posted and that the source still has, or has sent on: those of handlers before
-- their send, the one that `Start` has in hand, the buffer's, and those sent on.
abbrev pub kept : HttpSource → List RouteEvent → List RouteEvent
kept s buffer = map (λ x. x.1) s.sending ++ (to_list s.in_hand ++ (buffer ++ s.forwarded))

-- Each handler that is about to send has read the channel of the running `Start`, and the buffer has
-- room for their events and for `room` more.
abbrev pub Holds : List RouteEvent → ℕ → HttpSource → Type 0
Holds through room s =
    (buffer : List RouteEvent) × (s.event_c ≡ some buffer)
    × All (λ (x : Option ℕ × RouteEvent). x.0 ≡ some s.channel) s.sending
    × Perm (kept s buffer) through
    × (length buffer + length s.sending + room ≤ 64)

forward-fits :
    (ev : RouteEvent) (buffer : List RouteEvent)
    → length buffer < 64
    → forward ev (some buffer) ≡ some (buffer ++ ev ∷ [])
unfolding forward
forward-fits ev buffer fits = ground arith

post-Holds :
    (ev : RouteEvent) (s : HttpSource) (through : List RouteEvent) (room : ℕ)
    → Holds through (1 + room) s
    → Holds (ev ∷ through) room (handle_post_event (decoded ev) s).1
unfolding handle_post_event read_channel
post-Holds ev s through room (buffer, open', own, same, fits) = (
  buffer,
  open',
  (ap (read_channel s.channel) open', own),
  Perm.cons ev same,
  omega (arith, fits),
)

take_from-Holds :
    (o : Option RouteEvent) (c : Option (List RouteEvent)) (s : HttpSource)
    (through : List RouteEvent) (room : ℕ)
    → s.in_hand ≡ o
    → s.event_c ≡ c
    → Holds through room s
    → Holds through room (take_from o c s)
unfolding take_from to_list
take_from-Holds none none s through room e f h = h
take_from-Holds none (some []) s through room e f h = h
take_from-Holds none (some (ev ∷ rest)) s through room e f (buffer, o, own, same, fits) =
    let b : buffer ≡ ev ∷ rest = some-injective _ _ (sym o ∙ f) in
    (
      rest,
      refl,
      own,
      subst
          (λ (x : List RouteEvent × Option RouteEvent).
            Perm (map (λ y. y.1) s.sending ++ (to_list x.1 ++ (x.0 ++ s.forwarded))) through)
          (λ i. (b i, e i)) same,
      omega (arith, fits, ap length b),
    )
take_from-Holds (some held) c s through room e f h = h

pass_from-Holds :
    (o : Option RouteEvent) (s : HttpSource) (through : List RouteEvent) (room : ℕ)
    → s.in_hand ≡ o
    → Holds through room s
    → Holds through room (pass_from o s)
unfolding pass_from to_list
pass_from-Holds none s through room e h = h
pass_from-Holds (some ev) s through room e (buffer, o, own, same, fits) = (
  buffer,
  o,
  own,
  Perm.trans
      ((perm-append_left_iff (map (λ y. y.1) s.sending)).1
        (passed buffer (last_first s.forwarded ev)))
      (subst
        (λ (x : Option RouteEvent).
          Perm (map (λ y. y.1) s.sending ++ (to_list x ++ (buffer ++ s.forwarded))) through)
        e same),
  fits,
)

delivered :
    (id : ℕ) (ev : RouteEvent) (buffer : List RouteEvent)
    → length buffer < 64
    → deliver id (some id) ev (some buffer) ≡ some (buffer ++ ev ∷ [])
unfolding deliver
delivered id ev buffer few = ground (arith, forward-fits ev buffer few)

send_picked-Holds :
    (o : Option ((Option ℕ × RouteEvent) × List (Option ℕ × RouteEvent))) (s : HttpSource)
    (through : List RouteEvent) (room : ℕ)
    → ((x : Option ℕ × RouteEvent) (rest : List (Option ℕ × RouteEvent))
        → o ≡ some (x, rest)
        → Picked x s.sending rest)
    → Holds through room s
    → Holds through room (send_picked o s)
unfolding send_picked
send_picked-Holds none s through room f h = h
send_picked-Holds (some ((ch, ev), rest)) s through room f (buffer, o, own, same, fits) =
    let p = f (ch, ev) rest refl in
    let (mine, others) = Picked-all s.channel p own in
    let shorter = Picked-length p in
    (
      buffer ++ ev ∷ [],
      (λ i. deliver s.channel (mine i) ev (o i))
          ∙ delivered s.channel ev buffer (omega (arith, fits, shorter)),
      others,
      Perm.trans
          (passed (map (λ y. y.1) rest)
            (passed (to_list s.in_hand) (appended buffer s.forwarded ev)))
          (Perm.trans (Perm.symm (Perm.append (Picked-perm p) (Perm.refl _))) same),
      omega (arith, fits, shorter, length-append buffer (ev ∷ [])),
    )

put-Holds :
    (r : Decoded RouteRequest) (s : HttpSource) (through : List RouteEvent) (room : ℕ)
    → Holds through room s
    → Holds through room (handle_post_route r s).1
unfolding handle_post_route put_route
put-Holds (decoded r) s through room h =
    if_rule (λ (x : Answer × HttpSource). Holds through room x.1) (r.host == "") _ _ h h
put-Holds (malformed e) s through room h = h

delete-Holds :
    (host : String) (s : HttpSource) (through : List RouteEvent) (room : ℕ)
    → Holds through room s
    → Holds through room (handle_delete_route host s).1
unfolding handle_delete_route
delete-Holds host s through room h =
    if_rule (λ (x : Answer × HttpSource). Holds through room x.1) (host == "") _ _ h h

Holds-perm :
    {xs ys : List RouteEvent} (room : ℕ) (s : HttpSource)
    → Perm xs ys
    → Holds xs room s
    → Holds ys room s
Holds-perm room s p (buffer, o, own, same, fits) = (buffer, o, own, Perm.trans same p, fits)

serve_all-Holds :
    (qs : List Request) (s : HttpSource) (through : List RouteEvent)
    → All Running qs
    → Holds through (length (posted qs)) s
    → Holds (posted qs ++ through) 0 (serve_all qs s)
unfolding serve_all serve posted Running handle_get_events handle_get_routes handle_post_event
    take_one pass_on send
serve_all-Holds [] s through run h = h
serve_all-Holds (post_event (decoded ev) ∷ rest) s through run h =
    Holds-perm 0 (serve_all rest (handle_post_event (decoded ev) s).1)
      (perm_middle (posted rest) through)
      (serve_all-Holds rest (handle_post_event (decoded ev) s).1 (ev ∷ through) run.1
        (post-Holds ev s through (length (posted rest)) (h.0, h.1, h.2, h.3, omega (arith, h.4))))
serve_all-Holds (post_event (malformed e) ∷ rest) s through run h =
    serve_all-Holds rest s through run.1 h
serve_all-Holds (get_events ∷ rest) s through run h = serve_all-Holds rest s through run.1 h
serve_all-Holds (get_routes ∷ rest) s through run h = serve_all-Holds rest s through run.1 h
serve_all-Holds (post_route r ∷ rest) s through run h =
    serve_all-Holds rest _ through run.1 (put-Holds r s through _ h)
serve_all-Holds (delete_route host ∷ rest) s through run h =
    serve_all-Holds rest _ through run.1 (delete-Holds host s through _ h)
serve_all-Holds (starts ∷ rest) s through run h = absurd run.0
serve_all-Holds (stops ∷ rest) s through run h = absurd run.0
serve_all-Holds (takes ∷ rest) s through run h =
    serve_all-Holds rest _ through run.1
      (take_from-Holds s.in_hand s.event_c s through _ refl refl h)
serve_all-Holds (passes ∷ rest) s through run h =
    serve_all-Holds rest _ through run.1 (pass_from-Holds s.in_hand s through _ refl h)
serve_all-Holds (sends n ∷ rest) s through run h =
    serve_all-Holds rest _ through run.1
      (send_picked-Holds (pick n s.sending) s through _ (pick-Picked n s.sending) h)

-- When `Start` begins with no handler underway, and while it runs at most 64 events are posted, none
-- is lost or doubled, in whatever order the handlers send theirs and `Start` receives them and sends
-- them on, and whatever other requests come between: the events before their send, the one that
-- `Start` has in hand, those of the buffer and those sent on are the posted ones after those sent on
-- before, but for their order.
pub serve_all-forwards :
    (qs : List Request) (s : HttpSource)
    → All Running qs
    → length (posted qs) ≤ 64
    → s.sending ≡ []
    → s.in_hand ≡ none
    → (buffer : List RouteEvent) × ((serve_all qs (start s)).event_c ≡ some buffer)
      × Perm (kept (serve_all qs (start s)) buffer) (posted qs ++ s.forwarded)
unfolding start to_list
serve_all-forwards qs s run few idle free =
    let (buffer, o, own, same, fits) = serve_all-Holds qs (start s) s.forwarded run (
      [],
      refl,
      rw idle tt,
      rw (idle, free) (Perm.refl s.forwarded),
      omega (arith, few, ap length idle),
    ) in
    (buffer, o, same)
