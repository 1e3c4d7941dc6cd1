-- ===== src/Security/RateLimit/Examples.antt =====
-- A limiter of 60 tokens a minute and bursts of 2, over a clock of 1000 ticks a second.
use sccsos.Prelude.{ℕ, ◌+◌, ◌*◌, ◌≤◌, ◌≡◌, refl, List, [], ◌∷◌, arith}
use sccsos.Security.RateLimit.{Readings, Config, no_buckets}
use sccsos.Security.RateLimit.Check.{InOrder}
use sccsos.Security.RateLimit.Window.{Request, run_checks, grants_bounded}

abbrev cfg : Config
cfg = record { minute = 60000; tokens_per_minute = 60; capacity = 2; cleanup_interval = 300000 }

abbrev at : ℕ → Readings
at t = record {
  at_cleanup = t;
  at_sweep = λ k. t + 1;
  at_create = t + 2;
  at_consume = t + 3;
  at_remaining = t + 4;
  at_full = t + 5;
}

at_order : (t : ℕ) → InOrder cfg t (at t)
at_order t = record {
  cleanup = omega arith;
  sweep = λ k. omega arith;
  create = λ k. omega arith;
  consume = omega arith;
  remaining = omega arith;
  last = omega arith;
}

abbrev ask : ℕ → Request
ask t = record { key = "agent:architect"; tokens = 1; readings = at t }

abbrev burst : List Request
burst = ask 1000 ∷ ask 1005 ∷ ask 1010 ∷ ask 301015 ∷ []

-- The third of the burst is refused, and the fourth comes after a clean-up.
burst_granted : (run_checks cfg "agent:architect" burst (no_buckets 1000)).0 ≡ 3
unfolding run_checks
burst_granted = refl

late_order : InOrder cfg 1015 (at 301015)
late_order = record {
  cleanup = omega arith;
  sweep = λ k. omega arith;
  create = λ k. omega arith;
  consume = omega arith;
  remaining = omega arith;
  last = omega arith;
}

grants_bounded_example :
    (run_checks cfg "agent:architect" burst (no_buckets 1000)).0 * 60000 ≤ 2 * 60000 + 300020 * 60
grants_bounded_example =
    grants_bounded cfg "agent:architect" 1000 burst refl (omega arith)
      (at_order 1000, (at_order 1005, (at_order 1010, (late_order, tt))))
