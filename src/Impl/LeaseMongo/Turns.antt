-- ===== src/Impl/LeaseMongo/Turns.antt =====
-- The flag and the callbacks of `Run`, whatever the collection answers and whenever things happen.
use dynamic_routes_provision.Base.{◌≡◌, refl, sym, Bool, true, false, List, [], ◌∷◌}
use dynamic_routes_provision.Core.Result.{Result, ok, err, panic}
use dynamic_routes_provision.Impl.LeaseMongo.{
  Elector, Phase, waiting, leader, ending, stopped, crashed, ended, Callback, started_leading,
  stopped_leading, Running, Wake, timer, cancelled, term_begins, term_over, try_acquire, try_renew,
  attempt, leave_loop, renewal, begin_term, after_term, step_down, turn_in, turn, run, begin,
}

-- The callbacks, the last one first, take turns, and the last one is `started_leading` just when a
-- term has begun and is not over.
pub Alternate : Bool → List Callback → Type 0
Alternate true [] = ⊥
Alternate true (started_leading ∷ rest) = Alternate false rest
Alternate true (stopped_leading ∷ rest) = ⊥
Alternate false [] = Unit
Alternate false (started_leading ∷ rest) = ⊥
Alternate false (stopped_leading ∷ rest) = Alternate true rest

-- The flag, and whether a term has begun and is not over: the flag is up just in the renew loop, and
-- outside of it and of the wait for the term's end no term is open. A crash may leave them as they
-- were.
pub Standing : Phase → Bool → Bool → Type 0
Standing waiting leading started = (leading ≡ false) × (started ≡ false)
Standing leader leading started = leading ≡ true
Standing (ending context_done) leading started = leading ≡ false
Standing stopped leading started = (leading ≡ false) × (started ≡ false)
Standing (ended e) leading started = (leading ≡ false) × (started ≡ false)
Standing crashed leading started = Unit

abbrev pub Sound : {W : Type 0} → Running W → Type 0
Sound s = Standing s.phase s.leading s.started × Alternate s.started s.calls

Alternate-eq : (b b' : Bool) (cs : List Callback) → b ≡ b' → Alternate b cs → Alternate b' cs
Alternate-eq b b' cs e h = rw (sym e) h

module _ {W : Type 0} (e : Elector W) where
  attempt-Sound :
      (s : Running W) (r : Result Bool) (w : W)
      → s.phase ≡ waiting
      → (s.leading ≡ false) × (s.started ≡ false)
      → Alternate s.started s.calls
      → Sound (attempt e s (r, w))
  unfolding attempt Standing
  attempt-Sound s (ok true) w p f h = (refl, h)
  attempt-Sound s (ok false) w p f h = (simp p f, h)
  attempt-Sound s (err error) w p f h = (f, h)
  attempt-Sound s panic w p f h = (tt, h)

  renewal-Sound :
      (s : Running W) (r : Result Bool) (w : W)
      → s.phase ≡ leader
      → s.leading ≡ true
      → Alternate s.started s.calls
      → Sound (renewal e s (r, w))
  unfolding renewal leave_loop Standing
  renewal-Sound s (ok true) w p f h = (simp p f, h)
  renewal-Sound s (ok false) w p f h = (refl, h)
  renewal-Sound s (err error) w p f h = (refl, h)
  renewal-Sound s panic w p f h = (tt, h)

  begin_term-Sound :
      (b : Bool) (s : Running W)
      → s.started ≡ b
      → ((started : Bool) → Standing s.phase s.leading started)
      → Alternate s.started s.calls
      → Sound (begin_term e b s)
  unfolding begin_term Alternate
  begin_term-Sound true s p f h = (f s.started, h)
  begin_term-Sound false s p f h = (f true, Alternate-eq _ _ s.calls p h)

  after_term-Standing :
      (b leading : Bool) → leading ≡ false → Standing (after_term e b) leading false
  unfolding after_term Standing
  after_term-Standing true leading f = (f, refl)
  after_term-Standing false leading f = (f, refl)

  step_down-Sound :
      (b context_done : Bool) (s : Running W)
      → s.phase ≡ ending context_done
      → s.started ≡ b
      → s.leading ≡ false
      → Alternate s.started s.calls
      → Sound (step_down e b context_done s)
  unfolding step_down Standing Alternate
  step_down-Sound false context_done s p q f h = (simp p f, h)
  step_down-Sound true context_done s p q f h =
      (after_term-Standing context_done s.leading f, Alternate-eq _ _ s.calls q h)

  turn_in-Sound :
      (p : Phase) (i : Wake) (s : Running W)
      → s.phase ≡ p
      → Standing p s.leading s.started
      → Alternate s.started s.calls
      → Sound (turn_in e p i s)
  unfolding turn_in leave_loop Standing
  turn_in-Sound waiting (timer now) s p f h =
      attempt-Sound s (try_acquire e now s.world).0 (try_acquire e now s.world).1 p f h
  turn_in-Sound waiting cancelled s p f h = (f, h)
  turn_in-Sound waiting term_begins s p f h = (simp p f, h)
  turn_in-Sound waiting term_over s p f h = (simp p f, h)
  turn_in-Sound leader (timer now) s p f h =
      renewal-Sound s (try_renew e now s.world).0 (try_renew e now s.world).1 p f h
  turn_in-Sound leader cancelled s p f h = (refl, h)
  turn_in-Sound leader term_begins s p f h =
      begin_term-Sound s.started s refl (λ started. simp p f) h
  turn_in-Sound leader term_over s p f h = (simp p f, h)
  turn_in-Sound (ending context_done) (timer now) s p f h = (simp p f, h)
  turn_in-Sound (ending context_done) cancelled s p f h = (f, h)
  turn_in-Sound (ending context_done) term_begins s p f h =
      begin_term-Sound s.started s refl (λ started. simp p f) h
  turn_in-Sound (ending context_done) term_over s p f h =
      step_down-Sound s.started context_done s p refl f h
  turn_in-Sound stopped i s p f h = (simp p f, h)
  turn_in-Sound crashed i s p f h = (simp p tt, h)
  turn_in-Sound (ended error) i s p f h = (simp p f, h)

  run-keeps : (is : List Wake) (s : Running W) → Sound s → Sound (run e is s)
  unfolding run turn
  run-keeps [] s h = h
  run-keeps (i ∷ rest) s h = run-keeps rest (turn e i s) (turn_in-Sound s.phase i s refl h.0 h.1)

  -- Whatever the collection answers and in whatever order things happen, `OnStartedLeading` and
  -- `OnStoppedLeading` are called in turns, starting with the first; and unless the process has
  -- crashed, `IsLeader` is true just while `Run` is in its renew loop, and the last call can be
  -- `OnStartedLeading` only there or while `Run` waits for that call to return: before an attempt to
  -- acquire the lease and once `Run` has returned, each term that began was ended by
  -- `OnStoppedLeading`.
  pub run-Sound : (is : List Wake) (w : W) → Sound (run e is (begin w))
  unfolding begin Standing Alternate
  run-Sound is w = run-keeps is (begin w) ((refl, refl), tt)
