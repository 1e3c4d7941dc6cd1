-- ===== src/Resilience/CircuitBreaker.antt =====
-- sccsos/core/circuit_breaker.py: `CircuitBreaker`. Each of the three blocks under `self._lock`
-- is a function; `call` runs them one after the other, and `Step` lets the calls of several
-- threads interleave between the blocks. Times are ticks of the monotonic clock.
pub mod Invariant
pub mod Trips
mod Examples
use sccsos.Prelude.{ℕ, suc, ◌+◌, ◌≡◌, Bool, true, false, ltb, leb, if◌then◌else◌, List, [], ◌∷◌}

pub data State : Type 0 where
  closed opened half_open : State

pub record Config : Type 0 where
  pub failure_threshold : ℕ
  pub recovery_timeout : ℕ
  pub half_open_max_requests : ℕ

pub record Breaker : Type 0 where
  pub state : State
  pub failure_count : ℕ
  pub last_failure_time : ℕ
  pub half_open_successes : ℕ
  pub total_failures : ℕ
  pub total_successes : ℕ
  pub state_changes : ℕ

unfoldable pub new : Breaker
new = record {
  state = closed;
  failure_count = 0;
  last_failure_time = 0;
  half_open_successes = 0;
  total_failures = 0;
  total_successes = 0;
  state_changes = 0;
}

-- The second test of the pre-flight block, made in HALF_OPEN alone.
admit_half_open : Config → Breaker → Breaker × Bool
admit_half_open cfg b =
    if leb cfg.half_open_max_requests b.half_open_successes then (b, false) else (b, true)

-- `now - last < timeout` as `now < last + timeout`, since `-` on ℕ stops at 0.
preflight_in : State → Config → ℕ → Breaker → Breaker × Bool
unfolding admit_half_open
preflight_in closed cfg now b = (b, true)
preflight_in half_open cfg now b = admit_half_open cfg b
preflight_in opened cfg now b =
    if ltb now (b.last_failure_time + cfg.recovery_timeout)
    then (b, false)
    else admit_half_open cfg (record b {
      state = half_open;
      half_open_successes = 0;
      state_changes = b.state_changes + 1;
    })

-- The pre-flight block: `false` is `CircuitBreakerOpenError`.
unfoldable pub preflight : Config → ℕ → Breaker → Breaker × Bool
unfolding preflight_in
preflight cfg now b = preflight_in b.state cfg now b

open_now : Breaker → Breaker
open_now b = record b { state = opened; state_changes = b.state_changes + 1 }

failure_in : State → Config → Breaker → Breaker
unfolding open_now
failure_in half_open cfg b = open_now b
failure_in _ cfg b = if leb cfg.failure_threshold b.failure_count then open_now b else b

-- The block of the `except` branch.
unfoldable pub on_failure : Config → ℕ → Breaker → Breaker
unfolding failure_in
on_failure cfg now b = failure_in b.state cfg (record b {
  failure_count = b.failure_count + 1;
  total_failures = b.total_failures + 1;
  last_failure_time = now;
})

success_in : State → Config → Breaker → Breaker
success_in half_open cfg b =
    let probed = record b { half_open_successes = b.half_open_successes + 1 } in
    if leb cfg.half_open_max_requests probed.half_open_successes
    then record probed { state = closed; state_changes = b.state_changes + 1 }
    else probed
success_in _ cfg b = b

-- The block after a call that returned.
unfoldable pub on_success : Config → Breaker → Breaker
unfolding success_in
on_success cfg b =
    success_in b.state cfg (record b { failure_count = 0; total_successes = b.total_successes + 1 })

pub data Outcome : Type 0 where
  returned raised rejected : Outcome

-- One call by a single thread: the clock at the pre-flight test, what `fn` does, the clock after.
pub record Call : Type 0 where
  pub started_at : ℕ
  pub succeeds : Bool
  pub ended_at : ℕ

unfoldable pub call : Config → Call → Breaker → Breaker × Outcome
unfolding preflight on_failure on_success
call cfg c b =
    let (b', admitted) = preflight cfg c.started_at b in
    if admitted
    then (if c.succeeds
        then (on_success cfg b', returned)
        else (on_failure cfg c.ended_at b', raised))
    else (b', rejected)

unfoldable pub reset : Breaker → Breaker
reset b = record b {
  state = closed;
  failure_count = 0;
  last_failure_time = 0;
  half_open_successes = 0;
}

-- Calls one after the other.
unfoldable pub call_all : Config → List Call → Breaker → Breaker × List Outcome
unfolding call
call_all cfg [] b = (b, [])
call_all cfg (c ∷ cs) b =
    let (b', o) = call cfg c b in let (b'', os) = call_all cfg cs b' in (b'', o ∷ os)

-- The breaker and the number of calls of `fn` that are under way in some thread.
pub record World : Type 0 where
  pub breaker : Breaker
  pub running : ℕ

-- One block under the lock, of any thread.
pub data Step (cfg : Config) (w v : World) : Type 0 where
  enter :
      (now : ℕ)
      → (preflight cfg now w.breaker).1 ≡ true
      → v ≡ record { breaker = (preflight cfg now w.breaker).0; running = suc w.running }
      → Step cfg w v
  turn_away :
      (now : ℕ)
      → (preflight cfg now w.breaker).1 ≡ false
      → v ≡ record { breaker = (preflight cfg now w.breaker).0; running = w.running }
      → Step cfg w v
  fail :
      (now : ℕ)
      → w.running ≡ suc v.running
      → v.breaker ≡ on_failure cfg now w.breaker
      → Step cfg w v
  succeed : w.running ≡ suc v.running → v.breaker ≡ on_success cfg w.breaker → Step cfg w v
  reset_by_hand : v ≡ record { breaker = reset w.breaker; running = w.running } → Step cfg w v

pub data Reach (cfg : Config) : World → Type 0 where
  start : Reach cfg (record { breaker = new; running = 0 })
  step : {w v : World} → Reach cfg w → Step cfg w v → Reach cfg v
