-- ===== src/Security/RateLimit/Refill.antt =====
-- Refilling a bucket: what its level will be at a later time.
use native.Mathlib.Nat.{add-mul, le-div_iff_mul-le}
use sccsos.Prelude.{
  ℕ, ◌+◌, ◌-◌, ◌*◌, ◌/◌, ◌≤◌, ◌<◌, min, ◌≡◌, ap, ◌∙◌, Bool, Option, none, some, leb, if◌then◌else◌,
  arith,
}
use sccsos.Security.RateLimit.{
  Bucket, RateLimitResult, refill, consume, Readings, use_bucket, Config,
}

-- The level `elapsed` ticks later, under a cap.
abbrev pub grown : (full rate level elapsed : ℕ) → ℕ
grown full rate level elapsed = min full (level + elapsed * rate)

grown_twice :
    (full rate level a b : ℕ)
    → grown full rate (grown full rate level a) b ≡ grown full rate level (a + b)
grown_twice full rate level a b = omega (arith, add-mul a b rate)

pub grown_full : (full rate a : ℕ) → grown full rate full a ≡ full
grown_full full rate a = omega arith

module _ (cfg : Config) where
  abbrev pub full : ℕ
  full = cfg.capacity * cfg.minute

  -- A bucket of this limiter, last refilled at `now` or before.
  pub record Fits (now : ℕ) (b : Bucket) : Type 0 where
    pub capacity : b.capacity ≡ cfg.capacity
    pub rate : b.refill_rate ≡ cfg.tokens_per_minute
    pub past : b.last_refill ≤ now
    pub capped : b.level ≤ full

  -- The level that a client meets at time `t`; a key without a bucket has a full one.
  abbrev pub level_at : ℕ → Option Bucket → ℕ
  level_at t none = full
  level_at t (some b) = grown full cfg.tokens_per_minute b.level (t - b.last_refill)

  pub level-refill :
      (now t : ℕ) (b : Bucket) → Fits now b → (refill cfg.minute t b).level ≡ level_at t (some b)
  unfolding refill
  level-refill now t b f = cc (f.capacity, f.rate)

  pub Fits-refill : (now t : ℕ) (b : Bucket) → Fits now b → Fits t (refill cfg.minute t b)
  unfolding refill
  Fits-refill now t b f = record {
    capacity = f.capacity;
    rate = f.rate;
    past = omega arith;
    capped = omega (arith, level-refill now t b f);
  }

  -- A refill is not seen later.
  pub level_at-refill :
      (now t u : ℕ) (b : Bucket)
      → Fits now b
      → now ≤ t
      → t ≤ u
      → level_at u (some (refill cfg.minute t b)) ≡ level_at u (some b)
  unfolding refill
  level_at-refill now t u b f h k =
      let spans : t - b.last_refill + (u - t) ≡ u - b.last_refill = omega arith in
      ap (λ x. grown full cfg.tokens_per_minute x (u - t)) (level-refill now t b f)
      ∙ grown_twice full cfg.tokens_per_minute b.level (t - b.last_refill) (u - t)
      ∙ ap (grown full cfg.tokens_per_minute b.level) spans

  -- An int number of tokens that reaches the capacity is a full bucket.
  pub full_of_remaining :
      (level : ℕ) → 0 < cfg.minute → cfg.capacity ≤ level / cfg.minute → level ≤ full → level ≡ full
  full_of_remaining level pos h cap = omega (arith, (le-div_iff_mul-le pos).0 h)

  -- The level after a call that asks for `tokens` at the level `l`.
  abbrev pub spend : ℕ → ℕ → ℕ
  spend tokens l = if leb (tokens * cfg.minute) l then l - tokens * cfg.minute else l

  -- What `check` does with the bucket of its key: it grants the tokens if the level at that time has
  -- them, and later readings meet the level that is left, grown since.
  pub record Used (r : Readings) (tokens l : ℕ) (out : Bucket × RateLimitResult) : Type 0 where
    pub granted : out.1.allowed ≡ leb (tokens * cfg.minute) l
    pub fits : Fits r.at_full out.0
    pub later :
        (t : ℕ)
        → r.at_full ≤ t
        → level_at t (some out.0)
          ≡ grown full cfg.tokens_per_minute (spend tokens l) (t - r.at_consume)

  record Spent (now tokens l : ℕ) (out : Bucket × Bool) : Type 0 where
    level : out.0.level ≡ spend tokens l
    time : out.0.last_refill ≡ now
    flag : out.1 ≡ leb (tokens * cfg.minute) l
    fits : Fits now out.0

  consume-Spent :
      (now t tokens : ℕ) (b : Bucket)
      → Fits now b
      → Spent t tokens (refill cfg.minute t b).level (consume cfg.minute t tokens b)
  unfolding consume
  consume-Spent now t tokens b f =
      let g : Fits t (refill cfg.minute t b) = Fits-refill now t b f in
      record {
        level = ground arith;
        time = ground arith;
        flag = ground arith;
        fits = record {
          capacity = ground (arith, f.capacity);
          rate = ground (arith, f.rate);
          past = ground arith;
          capped = ground (arith, g.capped);
        };
      }

  pub use_bucket-Used :
      (now tokens : ℕ) (r : Readings) (b : Bucket)
      → Fits now b
      → now ≤ r.at_consume
      → r.at_consume ≤ r.at_remaining
      → r.at_remaining ≤ r.at_full
      → Used r tokens (level_at r.at_consume (some b)) (use_bucket cfg r tokens b)
  unfolding use_bucket
  use_bucket-Used now tokens r b f h k m =
      let l : (refill cfg.minute r.at_consume b).level ≡ level_at r.at_consume (some b) =
        level-refill now r.at_consume b f in
      let spent = consume-Spent now r.at_consume tokens b f in
      let b1 = (consume cfg.minute r.at_consume tokens b).0 in
      let b2 = refill cfg.minute r.at_remaining b1 in
      let fits2 = Fits-refill r.at_consume r.at_remaining b1 spent.fits in
      record {
        granted = spent.flag ∙ ap (leb (tokens * cfg.minute)) l;
        fits = Fits-refill r.at_remaining r.at_full b2 fits2;
        later = λ t after.
            level_at-refill r.at_remaining r.at_full t b2 fits2 m after
            ∙ level_at-refill r.at_consume r.at_remaining t b1 spent.fits k (omega arith)
            ∙ ap (λ x. grown full cfg.tokens_per_minute x (t - b1.last_refill))
                (spent.level ∙ ap (spend tokens) l)
            ∙ ap
                (λ x.
                  grown full cfg.tokens_per_minute (spend tokens (level_at r.at_consume (some b)))
                    (t - x))
                spent.time;
      }
