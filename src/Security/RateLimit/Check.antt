-- ===== src/Security/RateLimit/Check.antt =====
-- `RateLimiter.check` against a table of levels that knows nothing of buckets and clean-ups.
use sccsos.Prelude.{
  ℕ, ◌+◌, ◌-◌, ◌*◌, ◌/◌, ◌≤◌, ◌<◌, String, ◌≡◌, refl, ap, ◌∙◌, Bool, true, false, inl, inr, Option,
  none, some, ltb, leb, if◌then◌else◌, arith, Bool-cases, sym, subst, str_eq, leb→le,
}
use sccsos.Security.RateLimit.{
  Bucket, RateLimiter, RateLimitResult, new_bucket, refill, remaining_tokens, Readings, use_bucket,
  Config, is_enabled, swept, kept, periodic_cleanup, bucket_for, check, put,
}
use sccsos.Security.RateLimit.Refill.{
  Fits, Fits-refill, level_at, level_at-refill, full, full_of_remaining, grown, grown_full, spend,
  Used, use_bucket-Used,
}

some_eq : {x y : Bucket} → some x ≡ some y → x ≡ y
some_eq e = ground arith

module _ (cfg : Config) where
  -- The readings of a call that begins at `now` or later.
  pub record InOrder (now : ℕ) (r : Readings) : Type 0 where
    pub cleanup : now ≤ r.at_cleanup
    pub sweep : (k : String) → r.at_cleanup ≤ r.at_sweep k
    pub create : (k : String) → r.at_sweep k ≤ r.at_create
    pub consume : r.at_create ≤ r.at_consume
    pub remaining : r.at_consume ≤ r.at_remaining
    pub last : r.at_remaining ≤ r.at_full

  -- Every bucket is one of this limiter, refilled at `now` or before.
  abbrev pub IsValid : ℕ → RateLimiter → Type 0
  IsValid now s = (k : String) (b : Bucket) → s.buckets k ≡ some b → Fits cfg now b

  abbrev pub level : ℕ → String → RateLimiter → ℕ
  level t k s = level_at cfg t (s.buckets k)

  abbrev FitsAll : ℕ → Option Bucket → Type 0
  FitsAll now o = (b : Bucket) → o ≡ some b → Fits cfg now b

  -- Two entries of the dict that a client cannot tell apart from `now` on.
  record Same (now : ℕ) (o p : Option Bucket) : Type 0 where
    fits : FitsAll now p
    levels : (t : ℕ) → now ≤ t → level_at cfg t p ≡ level_at cfg t o

  Fits-later : (a b : ℕ) (x : Bucket) → a ≤ b → Fits cfg a x → Fits cfg b x
  Fits-later a b x h f = record {
    capacity = f.capacity;
    rate = f.rate;
    past = omega arith;
    capped = f.capped;
  }

  Same-refl : (a now : ℕ) (o : Option Bucket) → FitsAll a o → a ≤ now → Same now o o
  Same-refl a now o f h = record {
    fits = λ b e. Fits-later a now b h (f b e);
    levels = λ t k. refl;
  }

  module _ (a now t : ℕ) (b : Bucket) (f : Fits cfg a b) (h : a ≤ t) (k : t ≤ now) where
    Same-refill : Same now (some b) (some (refill cfg.minute t b))
    Same-refill = record {
      fits = λ x e.
          subst (Fits cfg now) (some_eq e)
            (Fits-later t now (refill cfg.minute t b) k (Fits-refill cfg a t b f));
      levels = λ u m. level_at-refill cfg a t u b f h (omega arith);
    }

    Same-full : (refill cfg.minute t b).level ≡ full cfg → Same now (some b) none
    Same-full e = record {
      fits = λ x q. absurd (ground arith);
      levels = λ u m.
          sym
            (grown_full (full cfg) cfg.tokens_per_minute (u - (refill cfg.minute t b).last_refill))
          ∙ ap
              (λ l.
                grown (full cfg) cfg.tokens_per_minute l (u - (refill cfg.minute t b).last_refill))
              (sym e)
          ∙ level_at-refill cfg a t u b f h (omega arith);
    }

    kept-some :
        leb b.capacity ((refill cfg.minute t b).level / cfg.minute) ≡ false
        → some (refill cfg.minute t b) ≡ kept cfg (remaining_tokens cfg.minute t b)
    unfolding kept remaining_tokens
    kept-some part = ground (arith, part)

    kept-none :
        leb b.capacity ((refill cfg.minute t b).level / cfg.minute) ≡ true
        → none ≡ kept cfg (remaining_tokens cfg.minute t b)
    unfolding kept remaining_tokens
    kept-none whole = ground (arith, whole)

    -- The sweep drops a bucket only if a new one could not be told from it.
    kept-Same : 0 < cfg.minute → Same now (some b) (kept cfg (remaining_tokens cfg.minute t b))
    kept-Same pos =
        elim (Bool-cases (leb b.capacity ((refill cfg.minute t b).level / cfg.minute))) [
          | inl whole ↦
              let g = Fits-refill cfg a t b f in
              let reached : cfg.capacity ≤ (refill cfg.minute t b).level / cfg.minute =
                subst (λ c. c ≤ (refill cfg.minute t b).level / cfg.minute) f.capacity
                  (leb→le b.capacity _ whole) in
              subst (Same now (some b)) (kept-none whole) (
                Same-full
                  (full_of_remaining cfg (refill cfg.minute t b).level pos reached g.capped))
          | inr part ↦ subst (Same now (some b)) (kept-some part) Same-refill
        ]

  module _ (now : ℕ) (r : Readings) (o : InOrder now r) (pos : 0 < cfg.minute) where
    swept-Same :
        (k : String) (p : Option Bucket)
        → FitsAll now p
        → Same r.at_create p (swept cfg r.at_sweep k p)
    unfolding swept
    swept-Same k none f =
        Same-refl now r.at_create none f (omega (arith, o.cleanup, o.sweep k, o.create k))
    swept-Same k (some b) f =
        kept-Same now r.at_create (r.at_sweep k) b (f b refl) (omega (arith, o.cleanup, o.sweep k))
          (o.create k) pos

    cleanup_skipped :
        (s : RateLimiter) (k : String)
        → ltb r.at_cleanup (s.last_cleanup + cfg.cleanup_interval) ≡ true
        → s.buckets k ≡ (periodic_cleanup cfg r s).buckets k
    unfolding periodic_cleanup
    cleanup_skipped s k h = rw h

    cleanup_made :
        (s : RateLimiter) (k : String)
        → ltb r.at_cleanup (s.last_cleanup + cfg.cleanup_interval) ≡ false
        → swept cfg r.at_sweep k (s.buckets k) ≡ (periodic_cleanup cfg r s).buckets k
    unfolding periodic_cleanup
    cleanup_made s k h = rw h

    cleanup-Same :
        (s : RateLimiter)
        → IsValid now s
        → (k : String) → Same r.at_create (s.buckets k) ((periodic_cleanup cfg r s).buckets k)
    cleanup-Same s v k =
        elim (Bool-cases (ltb r.at_cleanup (s.last_cleanup + cfg.cleanup_interval))) [
          | inl soon ↦ subst (Same r.at_create (s.buckets k)) (cleanup_skipped s k soon) (
              Same-refl now r.at_create (s.buckets k) (v k)
                (omega (arith, o.cleanup, o.sweep k, o.create k)))
          | inr due ↦
              subst (Same r.at_create (s.buckets k)) (cleanup_made s k due)
                (swept-Same k (s.buckets k) (v k))
        ]

    bucket_for-Fits :
        (p : Option Bucket) → FitsAll r.at_create p → Fits cfg r.at_create (bucket_for cfg r p)
    unfolding bucket_for new_bucket
    bucket_for-Fits none f = record {
      capacity = refl;
      rate = refl;
      past = omega arith;
      capped = omega arith;
    }
    bucket_for-Fits (some b) f = f b refl

    bucket_for-level :
        (p : Option Bucket) (t : ℕ) → level_at cfg t (some (bucket_for cfg r p)) ≡ level_at cfg t p
    unfolding bucket_for new_bucket
    bucket_for-level none t = grown_full (full cfg) cfg.tokens_per_minute (t - r.at_create)
    bucket_for-level (some b) t = refl

  -- The effect of a call of `check`, by levels alone.
  pub record Checked (r : Readings) (key : String) (tokens : ℕ) (s : RateLimiter)
      (out : RateLimiter × RateLimitResult) : Type 0 where
    pub granted : out.1.allowed ≡ leb (tokens * cfg.minute) (level r.at_consume key s)
    pub valid : IsValid r.at_full out.0
    pub levels :
        (k : String) (t : ℕ)
        → r.at_full ≤ t
        → level t k out.0 ≡ (
            if str_eq key k
            then grown
                (full cfg)
                cfg.tokens_per_minute
                (spend cfg tokens (level r.at_consume key s))
                (t - r.at_consume)
            else level t k s)

  module _ (now : ℕ) (r : Readings) (o : InOrder now r) (pos : 0 < cfg.minute) where
    entry-Fits :
        (x : Bool) (a b : Bucket) (p : Option Bucket)
        → Fits cfg r.at_full a
        → FitsAll r.at_create p
        → (if x then some a else p) ≡ some b
        → Fits cfg r.at_full b
    entry-Fits true a b p f g h = subst (Fits cfg r.at_full) (some_eq h) f
    entry-Fits false a b p f g h =
        Fits-later r.at_create r.at_full b (omega (arith, o.consume, o.remaining, o.last)) (g b h)

    entry-level :
        (x : Bool) (t l m : ℕ) (a : Bucket) (p : Option Bucket)
        → level_at cfg t (some a) ≡ l
        → level_at cfg t p ≡ m
        → level_at cfg t (if x then some a else p) ≡ (if x then l else m)
    entry-level true t l m a p h k = h
    entry-level false t l m a p h k = k

    put-Checked :
        (key : String) (tokens l : ℕ) (s c : RateLimiter) (out : Bucket × RateLimitResult)
        → ((k : String) → Same r.at_create (s.buckets k) (c.buckets k))
        → Used cfg r tokens l out
        → l ≡ level r.at_consume key s
        → Checked r key tokens s (put cfg key out.0 c, out.1)
    put-Checked key tokens l s c out same u e = record {
      granted = u.granted ∙ ap (leb (tokens * cfg.minute)) e;
      valid = λ k b h. entry-Fits (str_eq key k) out.0 b (c.buckets k) u.fits (same k).fits h;
      levels = λ k t after.
          entry-level (str_eq key k) t _ _ out.0 (c.buckets k)
            (u.later t after
              ∙ ap
                  (λ x.
                    grown (full cfg) cfg.tokens_per_minute (spend cfg tokens x) (t - r.at_consume))
                  e)
            ((same k).levels t (omega (arith, after, o.consume, o.remaining, o.last)));
    }

    check_on :
        (key : String) (tokens : ℕ) (s : RateLimiter)
        → is_enabled cfg ≡ true
        → let c = periodic_cleanup cfg r s in
          let out = use_bucket cfg r tokens (bucket_for cfg r (c.buckets key)) in
          (put cfg key out.0 c, out.1) ≡ check cfg key tokens r s
    unfolding check
    check_on key tokens s on = rw on

    -- An enabled limiter whose buckets are valid grants the tokens exactly if the level of the key has
    -- them at the time of `consume`, takes them from that level and from no other, clean-up or not,
    -- and leaves its buckets valid.
    pub check-Checked :
        (key : String) (tokens : ℕ) (s : RateLimiter)
        → is_enabled cfg ≡ true
        → IsValid now s
        → Checked r key tokens s (check cfg key tokens r s)
    check-Checked key tokens s on v =
        let c = periodic_cleanup cfg r s in
        let same = cleanup-Same now r o pos s v in
        let b = bucket_for cfg r (c.buckets key) in
        let fits = bucket_for-Fits now r o pos (c.buckets key) (same key).fits in
        subst (Checked r key tokens s) (check_on key tokens s on) (
          put-Checked key tokens (level_at cfg r.at_consume (some b)) s c
            (use_bucket cfg r tokens b) same
            (use_bucket-Used cfg r.at_create tokens r b fits o.consume o.remaining o.last)
            (bucket_for-level now r o pos (c.buckets key) r.at_consume
              ∙ (same key).levels r.at_consume o.consume))
