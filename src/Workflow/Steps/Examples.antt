-- ===== src/Workflow/Steps/Examples.antt =====
-- A step whose first attempt fails.
use sccsos.Prelude.{ℕ, zero, suc, String, ◌≡◌, refl, Bool, true, false, none, some, [], ◌∷◌, ◌⊎◌}
use sccsos.Prelude.Dict.{get, put}
use sccsos.Prelude.Result.{Result, ok}
use sccsos.Prelude.Text.{lower, strip, cut, holds_text}
use sccsos.Resilience.Retry.{is_final, value}
use sccsos.Resilience.Retry.Threaded.{execute_in}
use sccsos.Workflow.Definition.{WorkflowStepDef}
use sccsos.Workflow.Steps.{
  Outside, TaskResult, RunState, completed, update_rows, is_falsy, execute_step, execute_with_retry,
}
use sccsos.Workflow.Steps.Rows.{
  is_idle, WasSkipped, are_completed, execute_with_retry-idle, success_completes_rows,
}

abbrev pub answer : Bool → String → TaskResult
answer good text = record {
  success = good;
  response = text;
  error = "Timeout";
  model = "m";
  tokens_input = 3;
  tokens_output = 5;
}

abbrev pub replies : ℕ → Result String TaskResult
replies zero = ok (answer false "")
replies (suc n) = ok (answer true "done")

abbrev pub outside : Outside
outside = record {
  render = λ step n text outputs. ok text;
  guard = λ n prompt. none;
  has_guard = true;
  wrap = λ agent prompt. prompt;
  delegate = λ step n prompt. replies n;
  tenant_of = λ agent. "default";
}

abbrev pub a_step : String → WorkflowStepDef
a_step id = record {
  id = id;
  name = id;
  agent = "coder";
  prompt = "go";
  input = none;
  output = none;
  depends_on = [];
  timeout = 600;
  retry = 2;
  condition = some "yes";
}

abbrev fresh : RunState
fresh = record { workflow_steps = []; step_outputs = []; calls = []; spans = [] }

abbrev pub going_on : ℕ → Bool
going_on n = false

program : Unit {0}
unfolding execute_with_retry execute_in execute_step is_final is_falsy lower strip holds_text
    update_rows cut get put
program = tt

-- Two attempts, two rows, and both of them completed
rows_after_retry :
    (execute_with_retry outside "wf_1" (a_step "code") going_on fresh).1.workflow_steps
    ≡ record {
      run_id = "wf_1";
      step_id = "code";
      agent_name = "coder";
      status = completed;
      output = some "done";
      error = some "Timeout";
    }
      ∷ record {
        run_id = "wf_1";
        step_id = "code";
        agent_name = "coder";
        status = completed;
        output = some "done";
        error = none;
      }
      ∷ []
unfolding program
rows_after_retry = refl

code_succeeds : (execute_with_retry outside "wf_1" (a_step "code") going_on fresh).0.0 ≡ value tt
unfolding program
code_succeeds = refl

execute_with_retry-idle_example :
    is_idle (execute_with_retry outside "wf_1" (a_step "code") going_on fresh).1.workflow_steps
    ≡ true
execute_with_retry-idle_example =
    execute_with_retry-idle outside "wf_1" (a_step "code") going_on fresh refl

success_completes_rows_example :
    WasSkipped "code" (execute_with_retry outside "wf_1" (a_step "code") going_on fresh).1
    ⊎ (are_completed "wf_1" "code"
          (execute_with_retry outside "wf_1" (a_step "code") going_on fresh).1.workflow_steps
        ≡ true)
success_completes_rows_example =
    success_completes_rows outside "wf_1" (a_step "code") going_on fresh code_succeeds
