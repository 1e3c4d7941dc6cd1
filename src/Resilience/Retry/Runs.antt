-- ===== src/Resilience/Retry/Runs.antt =====
-- The ways in which `RetryPolicy.execute` ends, each with its calls and pauses.
use sccsos.Prelude.{
  ℕ, zero, suc, ◌+◌, ◌-◌, ◌<◌, String, ◌≡◌, refl, Bool, true, false, Option, none, some, List, [],
  ◌∷◌, ◌++◌, if◌then◌else◌, arith, ap, inl, inr, ◌∙◌, Bool-cases, lt→ltb, not_ltb, subst,
}
use native.Mathlib.Decide.{dec_lt}
use sccsos.Resilience.Retry.{
  Attempt, returns, raises, cancelled_after, raised_again, exhausted, Outcome, value, error, Log,
  no_log, Settings, is_final, delay, called, pause_after, attempts, execute, RetryEvent,
}

-- The pauses after the first `n` attempts.
abbrev pub delays : Settings → ℕ → List ℕ
delays cfg zero = []
delays cfg (suc n) = delays cfg n ++ delay cfg n ∷ []

abbrev events_of : Settings → ℕ → List RetryEvent
events_of cfg zero = []
events_of cfg (suc n) = events_of cfg n ++ record { attempt = n + 1; delay = delay cfg n } ∷ []

lt_suc : (n : ℕ) → n < suc n
lt_suc n = omega arith

-- The log after `n` attempts that failed and were followed by a pause.
abbrev pub log_after : Settings → ℕ → Log
log_after cfg n = record {
  calls = n;
  pauses = delays cfg n;
  events = if cfg.has_db then events_of cfg n else [];
}

module _ {ℓ} {A : Type ℓ} (cfg : Settings) (fn : ℕ → Attempt A) (cancelled : ℕ → Bool) where
  -- Attempt `i` is made and fails in a way that may be tried again.
  pub record Fails (i : ℕ) : Type ℓ where
    pub message : String
    pub going : cancelled i ≡ false
    pub raised : fn i ≡ raises message
    pub again : is_final cfg message ≡ false

  abbrev pub FailsBelow : ℕ → Type ℓ
  FailsBelow n = (i : ℕ) → i < n → Fails i

  -- The message of the last of the first `n` failures.
  abbrev last_message : (n : ℕ) → FailsBelow n → Option String
  last_message zero f = none
  last_message (suc n) f = some (f n (lt_suc n)).message

  log-step : (n : ℕ) → pause_after cfg n (called (log_after cfg n)) ≡ log_after cfg (suc n)
  unfolding called pause_after
  log-step n = ground arith

  attempts_again :
      (left n : ℕ) (last : Option String) (log : Log) (x : Fails n)
      → n + 1 < cfg.max_attempts
      → attempts cfg fn cancelled (suc left) n last log
        ≡ attempts cfg fn cancelled left (n + 1) (some x.message) (pause_after cfg n (called log))
  unfolding attempts
  attempts_again left n last log x h =
      rw (x.going, x.raised, x.again, lt→ltb (n + 1) cfg.max_attempts h)

  -- After `n` such failures the loop stands at attempt `n`.
  reach :
      (n : ℕ) (f : FailsBelow n)
      → n < cfg.max_attempts
      → execute cfg fn cancelled
        ≡ attempts cfg fn cancelled (cfg.max_attempts - n) n (last_message n f) (log_after cfg n)
  unfolding execute
  reach zero f h =
      let full : cfg.max_attempts ≡ cfg.max_attempts - 0 = omega arith in
      let start : no_log ≡ log_after cfg 0 = ground arith in
      ap (λ k. attempts cfg fn cancelled k 0 none no_log) full
      ∙ ap (attempts cfg fn cancelled (cfg.max_attempts - 0) 0 none) start
  reach (suc n) f h =
      let before = λ (i : ℕ) (lt : i < n). f i (omega arith) in
      let x = f n (lt_suc n) in
      let left : cfg.max_attempts - n ≡ suc (cfg.max_attempts - suc n) = omega arith in
      let after : n + 1 ≡ suc n = omega arith in
      reach n before (omega arith)
      ∙ ap (λ k. attempts cfg fn cancelled k n (last_message n before) (log_after cfg n)) left
      ∙ attempts_again (cfg.max_attempts - suc n) n (last_message n before) (log_after cfg n) x
          (omega arith)
      ∙ ap
          (λ k.
            attempts cfg fn cancelled (cfg.max_attempts - suc n) k (some x.message)
              (pause_after cfg n (called (log_after cfg n))))
          after
      ∙ ap (attempts cfg fn cancelled (cfg.max_attempts - suc n) (suc n) (some x.message))
          (log-step n)

  reach_suc :
      (n : ℕ) (f : FailsBelow n)
      → n < cfg.max_attempts
      → execute cfg fn cancelled
        ≡ attempts cfg fn cancelled
            (suc (cfg.max_attempts - suc n))
            n
            (last_message n f)
            (log_after cfg n)
  reach_suc n f h =
      let left : cfg.max_attempts - n ≡ suc (cfg.max_attempts - suc n) = omega arith in
      reach n f h
      ∙ ap (λ k. attempts cfg fn cancelled k n (last_message n f) (log_after cfg n)) left

  attempts_over :
      (left n : ℕ) (last : Option String) (log : Log) (x : Fails n)
      → cfg.max_attempts ≡ n + 1
      → left ≡ 0
      → attempts cfg fn cancelled (suc left) n last log
        ≡ (error (exhausted cfg.max_attempts (some x.message)), called log)
  unfolding attempts
  attempts_over zero n last log x h z =
      rw (x.going, x.raised, x.again, not_ltb (n + 1) cfg.max_attempts (omega arith))
  attempts_over (suc left) n last log x h z = absurd (omega arith)

  -- One more failure.
  extend : (n : ℕ) → FailsBelow n → Fails n → FailsBelow (suc n)
  extend n f x i h = elim (dec_lt i n) [
    | yes lt ↦ f i lt
    | no ge ↦ let e : n ≡ i = omega arith in subst Fails e x
  ]

  -- If the attempts below `n` fail and may be tried again, attempt `n` is allowed and not cancelled,
  -- and `fn` returns `a` at it, then `execute` returns `a` after `n` pauses and `n + 1` calls.
  execute_returns :
      (n : ℕ) (a : A)
      → FailsBelow n
      → n < cfg.max_attempts
      → cancelled n ≡ false
      → fn n ≡ returns a
      → execute cfg fn cancelled ≡ (value a, called (log_after cfg n))
  unfolding attempts
  execute_returns n a f h c e = reach_suc n f h ∙ rw (c, e)

  -- How a run ends: its result and its log.
  pub data Run (r : Outcome A × Log) : Type ℓ where
    none_allowed : cfg.max_attempts ≡ 0 → r ≡ (error (exhausted 0 none), no_log) → Run r
    stopped :
        (n : ℕ) (f : FailsBelow n)
        → n < cfg.max_attempts
        → cancelled n ≡ true
        → r ≡ (error (cancelled_after n), log_after cfg n)
        → Run r
    returned :
        (n : ℕ) (f : FailsBelow n) (a : A)
        → n < cfg.max_attempts
        → cancelled n ≡ false
        → fn n ≡ returns a
        → r ≡ (value a, called (log_after cfg n))
        → Run r
    refused :
        (n : ℕ) (f : FailsBelow n) (message : String)
        → n < cfg.max_attempts
        → cancelled n ≡ false
        → fn n ≡ raises message
        → is_final cfg message ≡ true
        → r ≡ (error (raised_again message), called (log_after cfg n))
        → Run r
    used_up :
        (n : ℕ) (f : FailsBelow n) (x : Fails n)
        → cfg.max_attempts ≡ suc n
        → r ≡ (error (exhausted (suc n) (some x.message)), called (log_after cfg n))
        → Run r

  no_attempts : cfg.max_attempts ≡ 0 → execute cfg fn cancelled ≡ (error (exhausted 0 none), no_log)
  unfolding execute
  no_attempts e = cc (e, ap (λ k. attempts cfg fn cancelled k 0 none no_log) e)

  -- What the attempt at which the loop stands does.
  data Turn (n : ℕ) : Type ℓ where
    stop : cancelled n ≡ true → Turn n
    return : (a : A) → cancelled n ≡ false → fn n ≡ returns a → Turn n
    refuse : (m : String) → cancelled n ≡ false → fn n ≡ raises m → is_final cfg m ≡ true → Turn n
    again : Fails n → Turn n

  turn : (n : ℕ) → Turn n
  turn n = elim (Bool-cases (cancelled n)) [ inl c ↦ stop c | inr c ↦ tried c (fn n) refl ]
    where
      tried : cancelled n ≡ false → (o : Attempt A) → fn n ≡ o → Turn n
      tried c (returns a) e = return a c e
      tried c (raises m) e = elim (Bool-cases (is_final cfg m)) [
        | inl y ↦ refuse m c e y
        | inr z ↦ again (record { message = m; going = c; raised = e; again = z })
      ]

  Run-from :
      (left n : ℕ) (f : FailsBelow n)
      → n + suc left ≡ cfg.max_attempts
      → Turn n
      → Run (execute cfg fn cancelled)
  unfolding attempts
  Run-from left n f h (stop c) = stopped n f (omega arith) c (reach_suc n f (omega arith) ∙ rw c)
  Run-from left n f h (return a c e) =
      returned n f a (omega arith) c e (reach_suc n f (omega arith) ∙ rw (c, e))
  Run-from left n f h (refuse m c e y) =
      refused n f m (omega arith) c e y (reach_suc n f (omega arith) ∙ rw (c, e, y))
  Run-from zero n f h (again x) =
      let total : cfg.max_attempts ≡ suc n = omega arith in
      used_up n f x total (
        reach_suc n f (omega arith)
        ∙ attempts_over (cfg.max_attempts - suc n) n (last_message n f) (log_after cfg n) x
            (omega arith) (omega arith)
        ∙ ap (λ k. (error (exhausted k (some x.message)), called (log_after cfg n))) total)
  Run-from (suc left) n f h (again x) =
      Run-from left (suc n) (extend n f x) (omega arith) (turn (suc n))

  -- Every run of `execute` ends in one of five ways, each with its calls of `fn`, pauses and rows: no
  -- attempt is allowed, the cancel event stops an attempt, an attempt returns, an attempt fails with a
  -- final message, or all attempts fail and the error names the last message.
  pub execute-Run : Run (execute cfg fn cancelled)
  execute-Run = start cfg.max_attempts refl
    where
      start : (k : ℕ) → cfg.max_attempts ≡ k → Run (execute cfg fn cancelled)
      start zero e = none_allowed e (no_attempts e)
      start (suc k) e = Run-from k 0 (λ i lt. elim lt [ ]) (omega arith) (turn 0)
