-- ===== src/Security/RateLimit.antt =====
-- sccsos/security/ratelimit.py: `Bucket` and `RateLimiter`. Times are ticks of the monotonic clock,
-- `minute` of them to a minute, and a bucket's `level` is its tokens times `minute`: a tick adds
-- `tokens_per_minute` to it, so that the floats of the source are exact here. Every reading of the
-- clock in a method is an argument. The dict of buckets is a function of the key.
pub mod Refill
pub mod Check
pub mod Window
mod Examples
use sccsos.Prelude.{
  ℕ, zero, suc, ◌+◌, ◌-◌, ◌*◌, ◌/◌, min, String, Bool, true, false, Option, none, some, ltb, leb,
  ◌==◌, str_eq, if◌then◌else◌, List, [], ◌∷◌,
}

pub record Bucket : Type 0 where
  pub capacity : ℕ
  pub refill_rate : ℕ
  pub level : ℕ
  pub last_refill : ℕ

-- A time in ticks as a fraction.
pub record Ticks : Type 0 where
  pub num : ℕ
  pub den : ℕ

pub record RateLimitResult : Type 0 where
  pub allowed : Bool
  pub remaining : ℕ
  pub reset_after : Ticks

module _ (minute : ℕ) where
  pub new_bucket : ℕ → ℕ → ℕ → Bucket
  new_bucket capacity rate now = record {
    capacity = capacity;
    refill_rate = rate;
    level = capacity * minute;
    last_refill = now;
  }

  unfoldable pub refill : ℕ → Bucket → Bucket
  refill now b =
      let elapsed = now - b.last_refill in
      record b {
        level = min (b.capacity * minute) (b.level + elapsed * b.refill_rate);
        last_refill = now;
      }

  unfoldable pub consume : ℕ → ℕ → Bucket → Bucket × Bool
  unfolding refill
  consume now tokens b =
      let b' = refill now b in
      if leb (tokens * minute) b'.level
      then (record b' { level = b'.level - tokens * minute }, true)
      else (b', false)

  unfoldable pub reset : ℕ → Bucket → Bucket
  reset now b = record b { level = b.capacity * minute; last_refill = now }

  -- `remaining_tokens` refills too; `int` rounds down.
  unfoldable pub remaining_tokens : ℕ → Bucket → Bucket × ℕ
  unfolding refill
  remaining_tokens now b = let b' = refill now b in (b', b'.level / minute)

  -- `deficit / refill_rate`, when neither is 0
  unfoldable pub seconds_until_full : ℕ → Bucket → Bucket × Ticks
  unfolding remaining_tokens
  seconds_until_full now b =
      let (b', left) = remaining_tokens now b in
      let deficit = b.capacity - left in
      let none_needed : Ticks = record { num = 0; den = 1 } in
      let needed : Ticks = record { num = deficit * minute; den = b.refill_rate } in
      (
        b',
        if leb deficit 0 then none_needed else if leb b.refill_rate 0 then none_needed else needed,
      )

-- The arguments of `RateLimiter`, `tokens_per_minute` and the capacity that it computes from them.
pub record Config : Type 0 where
  pub minute : ℕ
  pub tokens_per_minute : ℕ
  pub capacity : ℕ
  pub cleanup_interval : ℕ

-- `burst_capacity or tokens_per_minute or 60`
unfoldable pub capacity_of : Option ℕ → ℕ → ℕ
capacity_of none tokens_per_minute = if tokens_per_minute == 0 then 60 else tokens_per_minute
capacity_of (some burst) tokens_per_minute =
    if burst == 0 then (if tokens_per_minute == 0 then 60 else tokens_per_minute) else burst

pub record RateLimiter : Type 0 where
  pub buckets : String → Option Bucket
  pub last_cleanup : ℕ

-- The readings of the clock in one `check`, in their order.
pub record Readings : Type 0 where
  pub at_cleanup : ℕ
  pub at_sweep : String → ℕ
  pub at_create : ℕ
  pub at_consume : ℕ
  pub at_remaining : ℕ
  pub at_full : ℕ

module _ (cfg : Config) where
  abbrev pub is_enabled : Bool
  is_enabled = ltb 0 cfg.tokens_per_minute

  -- A bucket that the sweep has refilled stays if it is not full again.
  kept : Bucket × ℕ → Option Bucket
  kept (b, left) = if leb b.capacity left then none else some b

  swept : (String → ℕ) → String → Option Bucket → Option Bucket
  unfolding kept remaining_tokens
  swept times k none = none
  swept times k (some b) = kept (remaining_tokens cfg.minute (times k) b)

  unfoldable pub periodic_cleanup : Readings → RateLimiter → RateLimiter
  unfolding swept
  periodic_cleanup r s =
      if ltb r.at_cleanup (s.last_cleanup + cfg.cleanup_interval)
      then s
      else record s { buckets = λ k. swept r.at_sweep k (s.buckets k); last_cleanup = r.at_cleanup }

  abbrev pub put : String → Bucket → RateLimiter → RateLimiter
  put key b s = record s { buckets = λ k. if str_eq key k then some b else s.buckets k }

  -- `self._buckets[key]`, made first if it is not there
  unfoldable pub bucket_for : Readings → Option Bucket → Bucket
  unfolding new_bucket
  bucket_for r none = new_bucket cfg.minute cfg.capacity cfg.tokens_per_minute r.at_create
  bucket_for r (some b) = b

  -- What `check` does with the bucket of its key.
  unfoldable pub use_bucket : Readings → ℕ → Bucket → Bucket × RateLimitResult
  unfolding consume remaining_tokens seconds_until_full
  use_bucket r tokens b =
      let (b1, ok) = consume cfg.minute r.at_consume tokens b in
      let (b2, left) = remaining_tokens cfg.minute r.at_remaining b1 in
      let (b3, wait) = seconds_until_full cfg.minute r.at_full b2 in
      (b3, record { allowed = ok; remaining = left; reset_after = wait })

  enabled_check : String → ℕ → Readings → RateLimiter → RateLimiter × RateLimitResult
  unfolding periodic_cleanup bucket_for use_bucket
  enabled_check key tokens r s =
      let cleaned = periodic_cleanup r s in
      let (b, result) = use_bucket r tokens (bucket_for r (cleaned.buckets key)) in
      (put key b cleaned, result)

  unfoldable pub check : String → ℕ → Readings → RateLimiter → RateLimiter × RateLimitResult
  unfolding enabled_check
  check key tokens r s = if is_enabled then enabled_check key tokens r s else (
    s,
    record { allowed = true; remaining = 9999; reset_after = record { num = 0; den = 1 } },
  )

  reset_bucket : ℕ → Option Bucket → Option Bucket
  unfolding reset
  reset_bucket now none = none
  reset_bucket now (some b) = some (reset cfg.minute now b)

  unfoldable pub reset_key : String → ℕ → RateLimiter → RateLimiter
  unfolding reset_bucket
  reset_key key now s = record s {
    buckets = λ k. if str_eq key k then reset_bucket now (s.buckets k) else s.buckets k;
  }

abbrev pub no_buckets : ℕ → RateLimiter
no_buckets now = record { buckets = λ k. none; last_cleanup = now }
