-- ===== src/Resilience/CircuitBreaker/Trips.antt =====
-- When the breaker opens, how long it rejects, and when it closes again.
use sccsos.Prelude.{
  ◌+◌, ◌≤◌, ◌<◌, ◌≡◌, refl, true, false, ltb, leb, if◌then◌else◌, arith, List, [], ◌∷◌, All, length,
  ◌≢◌,
}
use sccsos.Resilience.CircuitBreaker.{
  closed, opened, half_open, Config, Breaker, call, Call, call_all, Outcome, rejected, raised,
}

abbrev pub AllFail : List Call → Type 0
AllFail = All (λ c. c.succeeds ≡ false)

abbrev pub AllSucceed : List Call → Type 0
AllSucceed = All (λ c. c.succeeds ≡ true)

call_failing :
    (cfg : Config) (c : Call) (b : Breaker)
    → c.succeeds ≡ false
    → b.state ≡ closed
    → (((call cfg c b).0.state
          ≡ (if leb cfg.failure_threshold (b.failure_count + 1) then opened else closed))
        × ((call cfg c b).0.failure_count ≡ b.failure_count + 1)
        × ((call cfg c b).1 ≡ raised))
unfolding call
call_failing cfg c b f s = ground arith

-- Failing calls, one after the other, leave a closed breaker closed as long as the failure count
-- with theirs is below the threshold, and open it with the call that reaches the threshold.
pub opens_at_threshold :
    (cfg : Config) (cs : List Call) (b : Breaker)
    → b.state ≡ closed
    → AllFail cs
    → b.failure_count < cfg.failure_threshold
    → b.failure_count + length cs ≤ cfg.failure_threshold
    → (call_all cfg cs b).0.state
      ≡ (if ltb (b.failure_count + length cs) cfg.failure_threshold then closed else opened)
unfolding call_all
opens_at_threshold cfg [] b s f below fits = ground arith
opens_at_threshold cfg (c ∷ []) b s f below fits = ground (arith, call_failing cfg c b)
opens_at_threshold cfg (c ∷ d ∷ cs) b s f below fits =
    ground (arith, call_failing cfg c b, opens_at_threshold cfg (d ∷ cs) (call cfg c b).0)

abbrev pub rejected_list : List Call → List Outcome
rejected_list [] = []
rejected_list (c ∷ cs) = rejected ∷ rejected_list cs

call_opened :
    (cfg : Config) (c : Call) (b : Breaker)
    → b.state ≡ opened
    → c.started_at < b.last_failure_time + cfg.recovery_timeout
    → call cfg c b ≡ (b, rejected)
unfolding call
call_opened cfg c b s h = ground arith

-- While the recovery timeout runs, an open breaker rejects every call and does not change.
pub fast_fail :
    (cfg : Config) (cs : List Call) (b : Breaker)
    → b.state ≡ opened
    → All (λ c. c.started_at < b.last_failure_time + cfg.recovery_timeout) cs
    → call_all cfg cs b ≡ (b, rejected_list cs)
unfolding call_all
fast_fail cfg [] b s h = refl
fast_fail cfg (c ∷ cs) b s h = ground (arith, call_opened cfg c b s h.0, fast_fail cfg cs b s h.1)

call_probing :
    (cfg : Config) (c : Call) (b : Breaker)
    → c.succeeds ≡ true
    → b.state ≡ half_open
    → b.half_open_successes < cfg.half_open_max_requests
    → (((call cfg c b).0.state ≡ (
          if leb cfg.half_open_max_requests (b.half_open_successes + 1) then closed else half_open))
        × ((call cfg c b).0.half_open_successes ≡ b.half_open_successes + 1)
        × ((call cfg c b).0.failure_count ≡ 0))
unfolding call
call_probing cfg c b f s h = ground arith

probes :
    (cfg : Config) (cs : List Call) (b : Breaker)
    → b.state ≡ half_open
    → AllSucceed cs
    → b.half_open_successes < cfg.half_open_max_requests
    → b.half_open_successes + length cs ≤ cfg.half_open_max_requests
    → (call_all cfg cs b).0.state ≡ (
        if ltb (b.half_open_successes + length cs) cfg.half_open_max_requests
        then half_open
        else closed)
unfolding call_all
probes cfg [] b s f below fits = ground arith
probes cfg (c ∷ []) b s f below fits = ground (arith, call_probing cfg c b)
probes cfg (c ∷ d ∷ cs) b s f below fits =
    ground (arith, call_probing cfg c b, probes cfg (d ∷ cs) (call cfg c b).0)

call_first_probe :
    (cfg : Config) (c : Call) (b : Breaker)
    → c.succeeds ≡ true
    → b.state ≡ opened
    → b.last_failure_time + cfg.recovery_timeout ≤ c.started_at
    → 0 < cfg.half_open_max_requests
    → (((call cfg c b).0.state ≡ (if leb cfg.half_open_max_requests 1 then closed else half_open))
        × ((call cfg c b).0.half_open_successes ≡ 1))
unfolding call
call_first_probe cfg c b f s h p = ground arith

-- After the recovery timeout, an open breaker whose calls succeed one after the other is half open
-- until `half_open_max_requests` of them have succeeded, and closed with the last of these.
pub recloses_after_probes :
    (cfg : Config) (c : Call) (cs : List Call) (b : Breaker)
    → b.state ≡ opened
    → b.last_failure_time + cfg.recovery_timeout ≤ c.started_at
    → AllSucceed (c ∷ cs)
    → length (c ∷ cs) ≤ cfg.half_open_max_requests
    → (call_all cfg (c ∷ cs) b).0.state
      ≡ (if ltb (length (c ∷ cs)) cfg.half_open_max_requests then half_open else closed)
unfolding call_all
recloses_after_probes cfg c [] b s h f fits = ground (arith, call_first_probe cfg c b)
recloses_after_probes cfg c (d ∷ cs) b s h f fits =
    ground (arith, call_first_probe cfg c b, probes cfg (d ∷ cs) (call cfg c b).0)

call_no_probe :
    (cfg : Config) (c : Call) (b : Breaker)
    → cfg.half_open_max_requests ≡ 0
    → b.state ≢ closed
    → (((call cfg c b).0.state ≢ closed) × ((call cfg c b).1 ≡ rejected))
unfolding call
call_no_probe cfg c b z s = (λ e. ground arith, ground arith)

-- With `half_open_max_requests` 0, a breaker that is not closed rejects every call of a series of calls
-- that are made one after the other, however late they come.
pub zero_probes_stuck :
    (cfg : Config) (cs : List Call) (b : Breaker)
    → cfg.half_open_max_requests ≡ 0
    → b.state ≢ closed
    → (call_all cfg cs b).1 ≡ rejected_list cs
unfolding call_all
zero_probes_stuck cfg [] b z s = refl
zero_probes_stuck cfg (c ∷ cs) b z s =
    let (still, out) = call_no_probe cfg c b z s in
    cc (out, zero_probes_stuck cfg cs (call cfg c b).0 z still)
