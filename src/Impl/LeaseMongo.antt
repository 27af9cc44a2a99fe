-- ===== src/Impl/LeaseMongo.antt =====
-- impl/lease-mongo/elector.go: one document of a MongoDB collection is the lease. The collection is
-- a parameter; the filters and the updates are the values that the code sends it. The clock is the
-- time that each call reads.
pub mod Exclusion
pub mod Turns
pub mod Examples
use dynamic_routes_provision.Base.{
  String, ℕ, ◌+◌, Bool, true, false, ◌&&◌, ◌||◌, List, [], ◌∷◌, ◌++◌, Option, none, some, ltb, ◌==◌,
}
use dynamic_routes_provision.Core.Result.{
  Error, wrap, Result, ok, err, panic, Action, pure, raise, ◌>>=◌,
}

-- The conditions on the document whose `_id` is the lease's name.
pub data Filter : Type 0 where
  held_by : String → Filter
  expired_or_held_by : ℕ → String → Filter

-- `$set`: all four fields when the lease is acquired, two when it is renewed.
pub data Update : Type 0 where
  set_lease : (holder : String) (acquired_at renewed_at expires_at : ℕ) → Update
  set_renewed : (renewed_at expires_at : ℕ) → Update

-- What `FindOneAndUpdate` reports: `mongo.IsDuplicateKeyError` tells one error from the others.
pub data Upsert : Type 0 where
  done duplicate_key : Upsert
  failed : Error → Upsert

-- The collection; each call names the document's `_id`. `update_one` returns the matched count.
pub record Collection (W : Type 0) : Type 0 where
  pub find_one_and_upsert : String → Filter → Update → W → Upsert × W
  pub update_one : String → Filter → Update → Action W ℕ
  pub delete_one : String → Filter → Action W ℕ

pub record Elector (W : Type 0) : Type 0 where
  pub collection : Collection W
  pub lease_name : String
  pub identity : String
  pub lease_duration : ℕ

acquired : Upsert → Result Bool
acquired done = ok true
acquired duplicate_key = ok false
acquired (failed error) = err error

module _ {W : Type 0} (e : Elector W) where
  -- `tryAcquire`
  pub try_acquire : ℕ → Action W Bool
  unfolding acquired
  try_acquire now w =
      let (r, w') =
        e.collection.find_one_and_upsert e.lease_name (expired_or_held_by now e.identity)
          (set_lease e.identity now now (now + e.lease_duration)) w in
      (acquired r, w')

  -- `tryRenew`
  pub try_renew : ℕ → Action W Bool
  try_renew now =
      e.collection.update_one e.lease_name (held_by e.identity)
        (set_renewed now (now + e.lease_duration))
      >>= λ matched. pure (ltb 0 matched)

  -- The error of `DeleteOne` is not looked at.
  pub release : W → W
  release w = (e.collection.delete_one e.lease_name (held_by e.identity) w).1

-- Where `Run` stands: before an attempt to acquire, in its renew loop, at `<-done` after the loop, or
-- returned. `ending` says whether the context is cancelled, which `Run` asks once the term is over.
pub data Phase : Type 0 where
  waiting leader stopped crashed : Phase
  ending : Bool → Phase
  ended : Error → Phase

pub data Callback : Type 0 where
  started_leading stopped_leading : Callback

-- `leading` is the atomic flag of `IsLeader`; `calls` are the callbacks so far, the last one first.
-- `started` says whether the goroutine of this term has called `OnStartedLeading`.
pub record Running (W : Type 0) : Type 0 where
  pub world : W
  pub phase : Phase
  pub leading : Bool
  pub started : Bool
  pub calls : List Callback

-- What happens: the retry timer or the renew ticker fires, at a time; the context is cancelled; the
-- goroutine of a term calls `OnStartedLeading`; or `Run` receives from `done`, which is closed
-- when that call has returned.
pub data Wake : Type 0 where
  timer : ℕ → Wake
  cancelled term_begins term_over : Wake

module _ {W : Type 0} (e : Elector W) where
  -- `leading.Store(true)`; the goroutine comes later.
  attempt : Running W → Result Bool × W → Running W
  attempt s (ok true, w) = record s { world = w; phase = leader; leading = true }
  attempt s (ok false, w) = record s { world = w }
  attempt s (err error, w) = record s { world = w; phase = ended (wrap "acquire lease" error) }
  attempt s (panic, w) = record s { world = w; phase = crashed }

  -- The renew loop has returned: `leading.Store(false)`, `cancelLeader()`.
  leave_loop : Bool → Running W → W → Running W
  leave_loop context_done s w = record s { world = w; phase = ending context_done; leading = false }

  renewal : Running W → Result Bool × W → Running W
  unfolding leave_loop
  renewal s (ok true, w) = record s { world = w }
  renewal s (ok false, w) = leave_loop false s w
  renewal s (err error, w) = leave_loop false s w
  renewal s (panic, w) = record s { world = w; phase = crashed }

  begin_term : Bool → Running W → Running W
  begin_term true s = s
  begin_term false s = record s { started = true; calls = started_leading ∷ s.calls }

  after_term : Bool → Phase
  after_term true = stopped
  after_term false = waiting

  -- After `<-done`: the callback, the release, and the context's error. While the goroutine has not
  -- called, `done` is open.
  step_down : Bool → Bool → Running W → Running W
  unfolding after_term
  step_down false context_done s = s
  step_down true context_done s = record {
    world = release e s.world;
    phase = after_term context_done;
    leading = s.leading;
    started = false;
    calls = stopped_leading ∷ s.calls;
  }

  turn_in : Phase → Wake → Running W → Running W
  unfolding attempt renewal leave_loop begin_term step_down
  turn_in waiting (timer now) s = attempt s (try_acquire e now s.world)
  turn_in waiting cancelled s = record s { phase = stopped }
  turn_in waiting term_begins s = s
  turn_in waiting term_over s = s
  turn_in leader (timer now) s = renewal s (try_renew e now s.world)
  turn_in leader cancelled s = leave_loop true s s.world
  turn_in leader term_begins s = begin_term s.started s
  turn_in leader term_over s = s
  turn_in (ending context_done) (timer now) s = s
  turn_in (ending context_done) cancelled s = record s { phase = ending true }
  turn_in (ending context_done) term_begins s = begin_term s.started s
  turn_in (ending context_done) term_over s = step_down s.started context_done s
  turn_in stopped i s = s
  turn_in crashed i s = s
  turn_in (ended error) i s = s

  pub turn : Wake → Running W → Running W
  turn i s = turn_in s.phase i s

  pub run : List Wake → Running W → Running W
  run [] s = s
  run (i ∷ rest) s = run rest (turn i s)

-- `Run` begins by an attempt, which is a timer that has fired.
pub begin : {W : Type 0} → W → Running W
begin w = record { world = w; phase = waiting; leading = false; started = false; calls = [] }
