-- ===== src/Core/Orchestrator/Leading.antt =====
-- core/orchestrator/orchestrator.go: `Run` under leader election. The elector calls back when the
-- instance becomes the leader, and waits for the run of that term to end after it has cancelled its
-- context; without an elector, `Run` is `run`.
use dynamic_routes_provision.Base.{List, [], ◌∷◌}
use dynamic_routes_provision.Core.Reconciler.{Reconciler}
use dynamic_routes_provision.Core.Orchestrator.{
  Orchestrator, Loop, Status, looping, returned, crashed, Input, cancelled, start, step,
}

-- An instance waits for the lease, or runs its loop.
pub data Instance (W : Type 0) : Type 0 where
  waiting : W → Instance W
  leading : Loop W → Instance W

pub data Moment : Type 0 where
  started_leading : Moment
  lost_lease : Moment
  input : Input → Moment

module _ {W : Type 0} where
  -- The term ends when its run has returned; a panic has ended the process.
  settle_term : Status → Loop W → Instance W
  settle_term looping l = waiting l.world
  settle_term returned l = waiting l.world
  settle_term crashed l = leading l

  end_term : Loop W → Instance W
  unfolding settle_term
  end_term l = settle_term l.status l

  -- Events and ticks reach an instance only in its loop.
  advance : Orchestrator W → Moment → Instance W → Instance W
  unfolding end_term
  advance o started_leading (waiting w) = leading (start o w)
  advance o started_leading (leading l) = leading l
  advance o lost_lease (waiting w) = waiting w
  advance o lost_lease (leading l) = end_term (step o cancelled l)
  advance o (input i) (waiting w) = waiting w
  advance o (input i) (leading l) = leading (step o i l)

  unfoldable pub lead : Orchestrator W → List Moment → Instance W → Instance W
  unfolding advance
  lead o [] s = s
  lead o (m ∷ ms) s = lead o ms (advance o m s)

-- What an instance runs.
abbrev pub RunsIn : {W : Type 0} → (Loop W → Type 0) → Instance W → Type 0
RunsIn P (waiting w) = ⊥
RunsIn P (leading l) = P l
