-- ===== src/Resilience/Retry/Bounds.antt =====
-- Bounds on the attempts and the pauses of a run.
use native.Mathlib.Nat.{pow-suc}
use sccsos.Prelude.{
  ℕ, zero, suc, ◌+◌, ◌*◌, ◌^◌, ◌≤◌, ◌<◌, min, ◌≡◌, refl, Bool, List, [], ◌∷◌, ◌++◌, All, length,
  length-append, arith, ap, ◌∙◌, subst, sym, ◌-◌,
}
use sccsos.Resilience.Retry.{Attempt, Settings, Log, Outcome, called, execute, delay, no_log}
use sccsos.Resilience.Retry.Runs.{
  Run, none_allowed, stopped, returned, refused, used_up, execute-Run, delays, log_after,
}

-- The time slept in a run.
pub total : List ℕ → ℕ
total [] = 0
total (d ∷ ds) = d + total ds

total-append : (xs ys : List ℕ) → total (xs ++ ys) ≡ total xs + total ys
unfolding total
total-append [] ys = omega arith
total-append (x ∷ xs) ys = omega (arith, total-append xs ys)

delay-le : (cfg : Settings) (n : ℕ) → delay cfg n ≤ cfg.max_delay
unfolding delay
delay-le cfg n = omega arith

total-delays : (cfg : Settings) (n : ℕ) → total (delays cfg n) ≤ n * cfg.max_delay
unfolding total
total-delays cfg zero = omega arith
total-delays cfg (suc n) =
    grind
      (arith, total-append (delays cfg n) (delay cfg n ∷ []), total-delays cfg n, delay-le cfg n)

length-delays : (cfg : Settings) (n : ℕ) → length (delays cfg n) ≡ n
length-delays cfg zero = refl
length-delays cfg (suc n) =
    omega (arith, length-append (delays cfg n) (delay cfg n ∷ []), length-delays cfg n)

-- What the pauses and the calls of a run amount to.
pub record IsPaced (cfg : Settings) (log : Log) : Type 0 where
  pub calls_le : log.calls ≤ cfg.max_attempts
  pub pauses_le : length log.pauses ≤ log.calls
  pub calls_le_pauses : log.calls ≤ length log.pauses + 1
  pub total_le : total log.pauses ≤ (cfg.max_attempts - 1) * cfg.max_delay

log_after-IsPaced : (cfg : Settings) (n : ℕ) → n < cfg.max_attempts → IsPaced cfg (log_after cfg n)
log_after-IsPaced cfg n h =
    let here = length-delays cfg n in
    let less : n ≤ cfg.max_attempts - 1 = omega arith in
    record {
      calls_le = omega arith;
      pauses_le = omega (arith, here);
      calls_le_pauses = omega (arith, here);
      total_le = grind (arith, total-delays cfg n, less);
    }

called-IsPaced :
    (cfg : Settings) (n : ℕ) → n < cfg.max_attempts → IsPaced cfg (called (log_after cfg n))
unfolding called
called-IsPaced cfg n h =
    let here = length-delays cfg n in
    let less : n ≤ cfg.max_attempts - 1 = omega arith in
    record {
      calls_le = omega arith;
      pauses_le = omega (arith, here);
      calls_le_pauses = omega (arith, here);
      total_le = grind (arith, total-delays cfg n, less);
    }

no_log-IsPaced : (cfg : Settings) → IsPaced cfg no_log
unfolding total
no_log-IsPaced cfg = omega arith

module _ {ℓ} {A : Type ℓ} (cfg : Settings) (fn : ℕ → Attempt A) (cancelled : ℕ → Bool) where
  Run-IsPaced : (r : Outcome A × Log) → Run cfg fn cancelled r → IsPaced cfg r.1
  Run-IsPaced r (none_allowed z e) = subst (λ x. IsPaced cfg x.1) (sym e) (no_log-IsPaced cfg)
  Run-IsPaced r (stopped n f h c e) =
      subst (λ x. IsPaced cfg x.1) (sym e) (log_after-IsPaced cfg n h)
  Run-IsPaced r (returned n f a h c o e) =
      subst (λ x. IsPaced cfg x.1) (sym e) (called-IsPaced cfg n h)
  Run-IsPaced r (refused n f m h c o y e) =
      subst (λ x. IsPaced cfg x.1) (sym e) (called-IsPaced cfg n h)
  Run-IsPaced r (used_up n f x h e) =
      subst (λ y. IsPaced cfg y.1) (sym e) (called-IsPaced cfg n (omega arith))

-- `execute` calls `fn` at most `max_attempts` times, pauses between two calls and nowhere else but
-- before an attempt that the cancel event stops, and sleeps at most `max_delay` seconds for each
-- attempt but one.
pub execute-IsPaced {ℓ} :
    {A : Type ℓ} (cfg : Settings) (fn : ℕ → Attempt A) (cancelled : ℕ → Bool)
    → IsPaced cfg (execute cfg fn cancelled).1
execute-IsPaced cfg fn cancelled =
    Run-IsPaced cfg fn cancelled (execute cfg fn cancelled) (execute-Run cfg fn cancelled)

one-pow : (n : ℕ) → 1 ^ n ≡ 1
one-pow zero = refl
one-pow (suc n) = omega (arith, pow-suc 1 n, one-pow n)

All-snoc {ℓ κ} :
    {A : Type ℓ} (P : A → Type κ) (xs : List A) (x : A) → All P xs → P x → All P (xs ++ x ∷ [])
All-snoc P [] x h p = (p, tt)
All-snoc P (y ∷ xs) x h p = (h.0, All-snoc P xs x h.1 p)

delays-All :
    (cfg : Settings) (d n : ℕ) → ((k : ℕ) → delay cfg k ≡ d) → All (λ x. x ≡ d) (delays cfg n)
delays-All cfg d zero h = tt
delays-All cfg d (suc n) h =
    All-snoc (λ x. x ≡ d) (delays cfg n) (delay cfg n) (delays-All cfg d n h) (h n)

delay-one : (cfg : Settings) (k : ℕ) → cfg.base_delay ≡ 1 → delay cfg k ≡ min 1 cfg.max_delay
unfolding delay
delay-one cfg k h =
    ap (λ b. min (b ^ k) cfg.max_delay) h ∙ ap (λ p. min p cfg.max_delay) (one-pow k)

module _ {ℓ} {A : Type ℓ} (cfg : Settings) (fn : ℕ → Attempt A) (cancelled : ℕ → Bool) where
  Run-pauses :
      (r : Outcome A × Log) → Run cfg fn cancelled r → (n : ℕ) × (r.1.pauses ≡ delays cfg n)
  unfolding called
  Run-pauses r (none_allowed z e) = (0, ap (λ x. x.1.pauses) e)
  Run-pauses r (stopped n f h c e) = (n, ap (λ x. x.1.pauses) e)
  Run-pauses r (returned n f a h c o e) = (n, ap (λ x. x.1.pauses) e)
  Run-pauses r (refused n f m h c o y e) = (n, ap (λ x. x.1.pauses) e)
  Run-pauses r (used_up n f x h e) = (n, ap (λ y. y.1.pauses) e)

-- With the default base delay 1 there is no backoff: every pause of a run is one second, or none
-- at all if `max_delay` is 0, however many attempts came before.
pub pauses_constant {ℓ} :
    {A : Type ℓ} (cfg : Settings) (fn : ℕ → Attempt A) (cancelled : ℕ → Bool)
    → cfg.base_delay ≡ 1
    → All (λ d. d ≡ min 1 cfg.max_delay) (execute cfg fn cancelled).1.pauses
pauses_constant cfg fn cancelled one =
    let (n, e) =
      Run-pauses cfg fn cancelled (execute cfg fn cancelled) (execute-Run cfg fn cancelled) in
    subst (All (λ d. d ≡ min 1 cfg.max_delay)) (sym e)
      (delays-All cfg (min 1 cfg.max_delay) n (λ k. delay-one cfg k one))
