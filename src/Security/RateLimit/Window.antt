-- ===== src/Security/RateLimit/Window.antt =====
-- A bound on what a key is granted over any sequence of calls.
use native.Mathlib.Nat.{add-mul}
use sccsos.Prelude.{
  ℕ, ◌+◌, ◌-◌, ◌*◌, ◌≤◌, ◌<◌, String, ◌≡◌, refl, ap, ◌∙◌, Bool, true, false, ◌&&◌, inl, inr, Option,
  none, some, List, [], ◌∷◌, leb, if◌then◌else◌, arith, Bool-cases, str_eq, eq_iff,
}
use sccsos.Security.RateLimit.{Bucket, RateLimiter, Readings, Config, is_enabled, check, no_buckets}
use sccsos.Security.RateLimit.Refill.{Fits, level_at, spend}
use sccsos.Security.RateLimit.Check.{InOrder, IsValid, level, Checked, check-Checked}

pub record Request : Type 0 where
  pub key : String
  pub tokens : ℕ
  pub readings : Readings

-- The tokens that a run of calls grants to one key, and the limiter after it.
unfoldable pub run_checks : Config → String → List Request → RateLimiter → ℕ × RateLimiter
unfolding check
run_checks cfg k [] s = (0, s)
run_checks cfg k (q ∷ qs) s =
    let (s', result) = check cfg q.key q.tokens q.readings s in
    let (more, last) = run_checks cfg k qs s' in
    ((if str_eq q.key k && result.allowed then q.tokens else 0) + more, last)

-- Each call begins after the one before it has ended.
abbrev pub OneByOne : Config → ℕ → List Request → Type 0
OneByOne cfg now [] = Unit
OneByOne cfg now (q ∷ qs) = InOrder cfg now q.readings × OneByOne cfg q.readings.at_full qs

abbrev pub ends_at : ℕ → List Request → ℕ
ends_at now [] = now
ends_at now (q ∷ qs) = ends_at q.readings.at_full qs

module _ (cfg : Config) where
  span :
      (a b c : ℕ)
      → a ≤ b
      → b ≤ c
      → (c - a) * cfg.tokens_per_minute
        ≡ (b - a) * cfg.tokens_per_minute + (c - b) * cfg.tokens_per_minute
  span a b c h k =
      let e : c - a ≡ b - a + (c - b) = omega arith in
      ap (λ x. x * cfg.tokens_per_minute) e ∙ add-mul (b - a) (c - b) cfg.tokens_per_minute

  -- A level grows by the refill rate at most.
  level_at-le :
      (now t : ℕ) (o : Option Bucket)
      → ((b : Bucket) → o ≡ some b → Fits cfg now b)
      → now ≤ t
      → level_at cfg t o ≤ level_at cfg now o + (t - now) * cfg.tokens_per_minute
  level_at-le now t none f h = omega arith
  level_at-le now t (some b) f h =
      let past = (f b refl).past in omega (arith, span b.last_refill now t past h)

  -- What a grant costs is what the level loses.
  spend-le :
      (tokens l : ℕ) (allowed : Bool)
      → allowed ≡ leb (tokens * cfg.minute) l
      → (if allowed then tokens else 0) * cfg.minute + spend cfg tokens l ≤ l
  spend-le tokens l true h = ground arith
  spend-le tokens l false h = ground arith

  module _ (now : ℕ) (q : Request) (s : RateLimiter) (k : String) (o : InOrder cfg now q.readings)
      (v : IsValid cfg now s)
      (c : Checked cfg q.readings q.key q.tokens s (check cfg q.key q.tokens q.readings s)) where
    abbrev paid : ℕ
    paid =
        if str_eq q.key k && (check cfg q.key q.tokens q.readings s).1.allowed then q.tokens else 0

    step_bound :
        (t : ℕ)
        → q.readings.at_full ≤ t
        → paid * cfg.minute + level cfg t k (check cfg q.key q.tokens q.readings s).0
          ≤ level cfg now k s + (t - now) * cfg.tokens_per_minute
    step_bound t h = elim (Bool-cases (str_eq q.key k)) [
      | inl here ↦
          let e : q.key ≡ k = (eq_iff q.key k).0 here in
          let tc = q.readings.at_consume in
          let began : now ≤ tc = omega (arith, o.cleanup, o.sweep k, o.create k, o.consume) in
          let ended : tc ≤ t = omega (arith, o.remaining, o.last) in
          let cost =
            spend-le q.tokens (level cfg tc q.key s)
              (check cfg q.key q.tokens q.readings s).1.allowed c.granted in
          let had = level_at-le now tc (s.buckets k) (v k) began in
          let l : level cfg tc q.key s ≡ level cfg tc k s = ap (λ j. level cfg tc j s) e in
          let left = c.levels k t h in
          ground (arith, here, left, had, l, cost, span now tc t began ended)
      | inr other ↦
          let left = c.levels k t h in
          let had =
            level_at-le now t (s.buckets k) (v k)
              (omega (arith, o.cleanup, o.sweep k, o.create k, o.consume, o.remaining, o.last)) in
          ground (arith, other, left, had)
    ]

  InOrder-le : (now : ℕ) (r : Readings) (k : String) → InOrder cfg now r → now ≤ r.at_full
  InOrder-le now r k o =
      omega (arith, o.cleanup, o.sweep k, o.create k, o.consume, o.remaining, o.last)

  ends_at-le :
      (now : ℕ) (k : String) (qs : List Request) → OneByOne cfg now qs → now ≤ ends_at now qs
  ends_at-le now k [] o = omega arith
  ends_at-le now k (q ∷ qs) o =
      omega (arith, InOrder-le now q.readings k o.0, ends_at-le q.readings.at_full k qs o.1)

  run_bound :
      (on : is_enabled cfg ≡ true) (pos : 0 < cfg.minute)
      → (k : String) (now : ℕ) (qs : List Request) (s : RateLimiter) → OneByOne cfg now qs
      → IsValid cfg now s
      → (run_checks cfg k qs s).0 * cfg.minute
        ≤ level cfg now k s + (ends_at now qs - now) * cfg.tokens_per_minute
  unfolding run_checks
  run_bound on pos k now [] s o v = omega arith
  run_bound on pos k now (q ∷ qs) s o v =
      let r = q.readings in
      let c = check-Checked cfg now r o.0 pos q.key q.tokens s on v in
      let s' = (check cfg q.key q.tokens r s).0 in
      let first = step_bound now q s k o.0 v c r.at_full (omega arith) in
      let rest = run_bound on pos k r.at_full qs s' o.1 c.valid in
      let whole =
        span now r.at_full (ends_at r.at_full qs) (InOrder-le now r k o.0)
          (ends_at-le r.at_full k qs o.1) in
      let sum = add-mul (paid now q s k o.0 v c) (run_checks cfg k qs s').0 cfg.minute in
      omega (arith, first, rest, whole, sum)

-- Over any sequence of calls, one after the other, for any keys and with clean-ups at any time, an
-- enabled limiter that starts empty grants a key at most its capacity and the tokens that
-- `tokens_per_minute` gives for the time that has passed.
pub grants_bounded :
    (cfg : Config) (k : String) (now : ℕ) (qs : List Request)
    → is_enabled cfg ≡ true
    → 0 < cfg.minute
    → OneByOne cfg now qs
    → (run_checks cfg k qs (no_buckets now)).0 * cfg.minute
      ≤ cfg.capacity * cfg.minute + (ends_at now qs - now) * cfg.tokens_per_minute
grants_bounded cfg k now qs on pos o =
    run_bound cfg on pos k now qs (no_buckets now) o (λ j b e. absurd (ground arith))
