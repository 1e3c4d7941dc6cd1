-- ===== src/Resilience/CircuitBreaker/Examples.antt =====
-- Runs of the breaker at concrete inputs.
use sccsos.Prelude.{◌+◌, ◌<◌, ◌↔◌, ◌≡◌, refl, true, false, arith, [], ◌∷◌, ℕ}
use sccsos.Resilience.CircuitBreaker.{
  opened, closed, Config, Breaker, World, new, preflight, call, Call, call_all, rejected, Reach,
  start, step, fail, enter,
}
use sccsos.Resilience.CircuitBreaker.Invariant.{turned_away_iff}
use sccsos.Resilience.CircuitBreaker.Trips.{
  opens_at_threshold, recloses_after_probes, zero_probes_stuck,
}

abbrev cfg : Config
cfg = record { failure_threshold = 2; recovery_timeout = 30; half_open_max_requests = 2 }

abbrev at : ℕ → Call
at t = record { started_at = t; succeeds = true; ended_at = t + 1 }

abbrev bad_at : ℕ → Call
bad_at t = record { started_at = t; succeeds = false; ended_at = t + 1 }

abbrev tripped : Breaker
tripped = record {
  state = opened;
  failure_count = 2;
  last_failure_time = 5;
  half_open_successes = 0;
  total_failures = 2;
  total_successes = 0;
  state_changes = 1;
}

trip : (call_all cfg (bad_at 1 ∷ bad_at 4 ∷ []) new).0 ≡ tripped
unfolding call_all new
trip = refl

opens_at_threshold_example : (call_all cfg (bad_at 1 ∷ bad_at 4 ∷ []) new).0.state ≡ opened
unfolding new
opens_at_threshold_example =
    opens_at_threshold cfg (bad_at 1 ∷ bad_at 4 ∷ []) new refl (refl, (refl, tt)) (omega arith)
      (omega arith)

recloses_after_probes_example : (call_all cfg (at 35 ∷ at 40 ∷ []) tripped).0.state ≡ closed
recloses_after_probes_example =
    recloses_after_probes cfg (at 35) (at 40 ∷ []) tripped refl (omega arith) (refl, (refl, tt))
      (omega arith)

abbrev no_probes : Config
no_probes = record { failure_threshold = 2; recovery_timeout = 30; half_open_max_requests = 0 }

zero_probes_stuck_example :
    (call_all no_probes (at 35 ∷ at 4000 ∷ []) tripped).1 ≡ rejected ∷ rejected ∷ []
zero_probes_stuck_example =
    zero_probes_stuck no_probes (at 35 ∷ at 4000 ∷ []) tripped refl (λ e. cc)

abbrev once : Config
once = record { failure_threshold = 1; recovery_timeout = 30; half_open_max_requests = 1 }

abbrev after_one : Breaker
after_one = record {
  state = opened;
  failure_count = 1;
  last_failure_time = 7;
  half_open_successes = 0;
  total_failures = 1;
  total_successes = 0;
  state_changes = 1;
}

abbrev idle : World
idle = record { breaker = after_one; running = 0 }

-- One thread enters and fails.
idle-Reach : Reach once idle
unfolding preflight new call
idle-Reach =
    step {w = record { breaker = new; running = 1 }} (step start (enter 3 refl refl))
      (fail 7 refl refl)

turned_away_iff_example :
    ((preflight once 20 after_one).1 ≡ false) ↔ ((after_one.state ≡ opened) × (20 < 7 + 30))
turned_away_iff_example =
    turned_away_iff once idle 20 (record { threshold_pos = omega arith; probes_pos = omega arith })
      idle-Reach
