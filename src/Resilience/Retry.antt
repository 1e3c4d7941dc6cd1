-- ===== src/Resilience/Retry.antt =====
-- sccsos/core/retry_policy.py: `RetryPolicy.execute`. What `fn` does at its n-th call is given by
-- `fn n`, and `cancelled n` is whether the cancel event is set when the loop asks before attempt n.
-- Besides its result, a run has a log: the calls of `fn`, the pauses, the rows of the event table.
pub mod Runs
pub mod Bounds
pub mod Threaded
mod Examples
use sccsos.Prelude.{
  ℕ, zero, suc, ◌+◌, ◌^◌, min, String, Bool, true, false, Option, none, some, List, [], ◌∷◌, ◌++◌,
  ltb, some_of, if◌then◌else◌,
}
use sccsos.Prelude.Text.{codes, lower, holds_text}

pub data Attempt {ℓ} (A : Type ℓ) : Type ℓ where
  returns : A → Attempt A
  raises : (message : String) → Attempt A

pub data RetryError : Type 0 where
  cancelled_after : (attempts : ℕ) → RetryError
  raised_again : (message : String) → RetryError
  exhausted : (attempts : ℕ) → Option String → RetryError

pub data Outcome {ℓ} (A : Type ℓ) : Type ℓ where
  value : A → Outcome A
  error : RetryError → Outcome A

pub record RetryEvent : Type 0 where
  pub attempt : ℕ
  pub delay : ℕ

pub record Log : Type 0 where
  pub calls : ℕ
  pub pauses : List ℕ
  pub events : List RetryEvent

abbrev pub no_log : Log
no_log = record { calls = 0; pauses = []; events = [] }

-- The fields of the policy and the arguments of `execute`, but for `fn` and the cancel event.
pub record Settings : Type 0 where
  pub has_db : Bool
  pub base_delay : ℕ
  pub max_delay : ℕ
  pub max_attempts : ℕ
  pub non_retryable_patterns : List String

abbrev pub default_patterns : List String
default_patterns = "Policy rejected" ∷ "cancelled" ∷ []

-- `any(p.lower() in estr for p in non_retryable_patterns)`
unfoldable pub is_final : Settings → String → Bool
unfolding lower holds_text
is_final cfg message =
    let text = lower (codes message) in
    some_of (λ p. holds_text (lower (codes p)) text) cfg.non_retryable_patterns

-- `min(self._base_delay ** attempt, self._max_delay)`
unfoldable pub delay : Settings → ℕ → ℕ
delay cfg attempt = min (cfg.base_delay ^ attempt) cfg.max_delay

pub called : Log → Log
called log = record log { calls = log.calls + 1 }

-- The row of the event table, when there is a database, and `time.sleep(delay)`.
unfoldable pub pause_after : Settings → ℕ → Log → Log
pause_after cfg attempt log =
    let d = delay cfg attempt in
    let event : RetryEvent = record { attempt = attempt + 1; delay = d } in
    record log {
      pauses = log.pauses ++ d ∷ [];
      events = if cfg.has_db then log.events ++ event ∷ [] else log.events;
    }

module _ {ℓ} {A : Type ℓ} (cfg : Settings) (fn : ℕ → Attempt A) (cancelled : ℕ → Bool) where
  -- The loop, by recursion on the attempts left; `attempt` counts up, `last` is `last_error`.
  unfoldable pub attempts : ℕ → ℕ → Option String → Log → Outcome A × Log
  unfolding called pause_after
  attempts zero attempt last log = (error (exhausted cfg.max_attempts last), log)
  attempts (suc left) attempt last log =
      let tried : Outcome A × Log = elim (fn attempt) [
        | returns a ↦ (value a, called log)
        | raises message ↦
            let paused =
              attempts left (attempt + 1) (some message) (pause_after cfg attempt (called log)) in
            let over = attempts left (attempt + 1) (some message) (called log) in
            if is_final cfg message
            then (error (raised_again message), called log)
            else if ltb (attempt + 1) cfg.max_attempts
            then paused
            else over
      ] in
      if cancelled attempt then (error (cancelled_after attempt), log) else tried

  unfoldable pub execute : Outcome A × Log
  unfolding attempts
  execute = attempts cfg.max_attempts 0 none no_log
