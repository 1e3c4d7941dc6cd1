-- ===== src/Resilience/CircuitBreaker/Invariant.antt =====
-- What holds of a breaker between two blocks, for every interleaving of the threads.
use sccsos.Prelude.{ℕ, ◌+◌, ◌<◌, ◌≡◌, false, ◌↔◌, arith}
use sccsos.Resilience.CircuitBreaker.{
  closed, opened, half_open, Config, Breaker, World, Step, enter, turn_away, fail, succeed,
  reset_by_hand, Reach, start, step, new, preflight, on_failure, on_success, reset,
}

pub record IsValid (cfg : Config) (b : Breaker) : Type 0 where
  pub closed_below : b.state ≡ closed → b.failure_count < cfg.failure_threshold
  pub probing_below : b.state ≡ half_open → b.half_open_successes < cfg.half_open_max_requests

-- A configuration that can open and can close again.
pub record IsUsable (cfg : Config) : Type 0 where
  pub threshold_pos : 0 < cfg.failure_threshold
  pub probes_pos : 0 < cfg.half_open_max_requests

module _ (cfg : Config) (u : IsUsable cfg) where
  new-IsValid : IsValid cfg new
  unfolding new
  new-IsValid = ground arith

  pub preflight-IsValid :
      (now : ℕ) (b : Breaker) → IsValid cfg b → IsValid cfg (preflight cfg now b).0
  unfolding preflight
  preflight-IsValid now b v = ground arith

  pub on_failure-IsValid :
      (now : ℕ) (b : Breaker) → IsValid cfg b → IsValid cfg (on_failure cfg now b)
  unfolding on_failure
  on_failure-IsValid now b v = ground arith

  pub on_success-IsValid : (b : Breaker) → IsValid cfg b → IsValid cfg (on_success cfg b)
  unfolding on_success
  on_success-IsValid b v = ground arith

  pub reset-IsValid : (b : Breaker) → IsValid cfg b → IsValid cfg (reset b)
  unfolding reset
  reset-IsValid b v = ground arith

  Step-IsValid : {w v : World} → Step cfg w v → IsValid cfg w.breaker → IsValid cfg v.breaker
  Step-IsValid {w} (enter now _ e) h = ground (arith, preflight-IsValid now w.breaker h)
  Step-IsValid {w} (turn_away now _ e) h = ground (arith, preflight-IsValid now w.breaker h)
  Step-IsValid {w} (fail now _ e) h = ground (arith, on_failure-IsValid now w.breaker h)
  Step-IsValid {w} (succeed _ e) h = ground (arith, on_success-IsValid w.breaker h)
  Step-IsValid {w} (reset_by_hand e) h = ground (arith, reset-IsValid w.breaker h)

  -- Every interleaving of the threads keeps the invariant.
  pub Reach-IsValid : {w : World} → Reach cfg w → IsValid cfg w.breaker
  Reach-IsValid start = new-IsValid
  Reach-IsValid (step r s) = Step-IsValid s (Reach-IsValid r)

preflight_iff :
    {cfg : Config} (now : ℕ) (b : Breaker)
    → IsUsable cfg
    → IsValid cfg b
    → ((preflight cfg now b).1 ≡ false)
      ↔ ((b.state ≡ opened) × (now < b.last_failure_time + cfg.recovery_timeout))
unfolding preflight
preflight_iff now b u v = (λ h. ground arith, λ h. ground arith)

-- A usable breaker that some interleaving of threads has reached turns a call away exactly in
-- OPEN before the recovery timeout is over: the probe limit of HALF_OPEN never turns one away.
pub turned_away_iff :
    (cfg : Config) (w : World) (now : ℕ)
    → IsUsable cfg
    → Reach cfg w
    → ((preflight cfg now w.breaker).1 ≡ false)
      ↔ ((w.breaker.state ≡ opened) × (now < w.breaker.last_failure_time + cfg.recovery_timeout))
turned_away_iff cfg w now u r = preflight_iff now w.breaker u (Reach-IsValid cfg u r)
