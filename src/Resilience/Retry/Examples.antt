-- ===== src/Resilience/Retry/Examples.antt =====
-- A step that fails twice and then returns.
use sccsos.Prelude.{
  ℕ, zero, suc, ◌+◌, ltb, if◌then◌else◌, min, ◌≡◌, refl, Bool, true, false, All, arith,
}
use sccsos.Prelude.Text.{lower, holds_text}
use sccsos.Resilience.Retry.{
  Attempt, returns, raises, Settings, error, called, execute, is_final, default_patterns,
  raised_again,
}
use sccsos.Resilience.Retry.Runs.{Run, execute-Run, FailsBelow}
use sccsos.Resilience.Retry.Threaded.{execute_in}
use sccsos.Resilience.Retry.Bounds.{pauses_constant}

abbrev cfg : Settings
cfg = record {
  has_db = true;
  base_delay = 1;
  max_delay = 30;
  max_attempts = 4;
  non_retryable_patterns = default_patterns;
}

abbrev flaky : ℕ → Attempt ℕ
flaky zero = raises "Timeout"
flaky (suc zero) = raises "Connection reset"
flaky (suc (suc n)) = returns 7

abbrev never : ℕ → Bool
never n = false

abbrev hopeless : ℕ → Attempt ℕ
hopeless n = raises "Step CANCELLED by policy"

program : Unit {0}
unfolding execute is_final lower holds_text called
program = tt

hopeless_run : (execute cfg hopeless never).0 ≡ error (raised_again "Step CANCELLED by policy")
unfolding program
hopeless_run = refl

fails : FailsBelow cfg flaky never 2
unfolding program
fails zero h = record { message = "Timeout"; going = refl; raised = refl; again = refl }
fails (suc zero) h = record {
  message = "Connection reset";
  going = refl;
  raised = refl;
  again = refl;
}
fails (suc (suc n)) h = absurd (omega arith)

execute-Run_example : Run cfg flaky never (execute cfg flaky never)
execute-Run_example = execute-Run cfg flaky never

pauses_constant_example : All (λ d. d ≡ min 1 30) (execute cfg flaky never).1.pauses
pauses_constant_example = pauses_constant cfg flaky never refl

-- A call that counts itself, and succeeds when it is made for the third time
abbrev counting : ℕ → ℕ → Attempt ℕ × ℕ
counting n s = if ltb s 2 then (raises "Timeout", s + 1) else (returns s, s + 1)

counting_run : execute_in cfg counting never 0 ≡ ((execute_in cfg counting never 0).0, 3)
unfolding program execute_in
counting_run = refl
