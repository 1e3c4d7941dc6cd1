-- ===== src/Workflow/Steps.antt =====
-- sccsos/core/step_executor.py: `StepExecutor`, with the statements of sccsos/core/db/crud.py that it
-- runs on `workflow_steps`. What it calls outside is an argument (`Outside`): the template engine,
-- the prompt guard, the personality of an agent and the adapter, each of which may answer differently
-- each time, so it is given the number of the attempt. Times and durations are left out.
pub mod Rows
pub mod Change
pub mod Trace
mod Examples
use Prim.Native.String.{◌++◌ as ◌+++◌}
use sccsos.Prelude.{
  ℕ, ◌+◌, String, Bool, true, false, ◌&&◌, ◌||◌, Option, none, some, List, [], ◌∷◌, ◌++◌,
  if◌then◌else◌, str_eq, ltb, some_of,
}
use sccsos.Prelude.Dict.{Dict, put}
use sccsos.Prelude.Result.{Result, ok, err}
use sccsos.Prelude.Text.{codes, cut, lower, strip, same_text}
use sccsos.Resilience.Retry.{
  Attempt, returns, raises, Outcome, Settings, default_patterns, RetryError, Log,
}
use sccsos.Resilience.Retry.Threaded.{Ended, execute_in}
use sccsos.Workflow.Definition.{WorkflowStepDef}

pub data StepStatus : Type 0 where
  running skipped completed failed : StepStatus

-- A row of `workflow_steps`
pub record StepRow : Type 0 where
  pub run_id : String
  pub step_id : String
  pub agent_name : String
  pub status : StepStatus
  pub output : Option String
  pub error : Option String

-- A value of `step_outputs`
pub record Output : Type 0 where
  pub response : String
  pub stdout : String
  pub skipped : Bool

-- What `record_llm_call` is given
pub record Call : Type 0 where
  pub agent_id : String
  pub model : String
  pub tokens_input : ℕ
  pub tokens_output : ℕ
  pub success : Bool
  pub tenant_id : String

-- `TaskResult` of the adapter
pub record TaskResult : Type 0 where
  pub success : Bool
  pub response : String
  pub error : String
  pub model : String
  pub tokens_input : ℕ
  pub tokens_output : ℕ

pub data SpanStatus : Type 0 where
  span_ok span_error span_skipped span_blocked : SpanStatus

-- The calls of the tracer for the steps, in their order
pub data Span : Type 0 where
  started : (step_id : String) → Span
  ended : (step_id : String) → SpanStatus → Span

pub record RunState : Type 0 where
  pub workflow_steps : List StepRow
  pub step_outputs : Dict Output
  pub calls : List Call
  pub spans : List Span

-- What the executor is composed with. `render` and `delegate` give the text of an exception where
-- they raise; `guard` gives a reason where it blocks.
pub record Outside : Type 0 where
  pub render : WorkflowStepDef → ℕ → String → Dict Output → Result String String
  pub guard : ℕ → String → Option String
  pub has_guard : Bool
  pub wrap : String → String → String
  pub delegate : WorkflowStepDef → ℕ → String → Result String TaskResult
  pub tenant_of : String → String

end_span : String → SpanStatus → RunState → RunState
end_span step_id status s = record s { spans = s.spans ++ ended step_id status ∷ [] }

-- `crud.insert_workflow_step`
insert_step : String → WorkflowStepDef → StepStatus → RunState → RunState
insert_step run_id step status s = record s {
  workflow_steps =
      s.workflow_steps
      ++ record {
        run_id = run_id;
        step_id = step.id;
        agent_name = step.agent;
        status = status;
        output = none;
        error = none;
      }
        ∷ [];
}

-- `UPDATE workflow_steps SET … WHERE run_id = ? AND step_id = ?`
unfoldable pub update_rows : String → String → (StepRow → StepRow) → List StepRow → List StepRow
update_rows run_id step_id f [] = []
update_rows run_id step_id f (r ∷ rows) =
    let rest = update_rows run_id step_id f rows in
    if str_eq (r.run_id) run_id && str_eq (r.step_id) step_id then f r ∷ rest else r ∷ rest

-- `crud.update_workflow_step` with an error, and with an output
fail_rows : String → String → String → RunState → RunState
fail_rows run_id step_id text s = record s {
  workflow_steps =
      update_rows run_id step_id (λ r. record r { status = failed; error = some (cut 500 text) })
        (s.workflow_steps);
}

complete_rows : String → String → String → RunState → RunState
complete_rows run_id step_id text s = record s {
  workflow_steps =
      update_rows run_id step_id
        (λ r. record r { status = completed; output = some (cut 1000 text) }) (s.workflow_steps);
}

-- `condition_result.strip().lower() in (…)`
unfoldable pub is_falsy : String → Bool
unfolding lower strip same_text
is_falsy text =
    let t = lower (strip (codes text)) in
    some_of (λ w. same_text t (codes w)) ("" ∷ "false" ∷ "0" ∷ "no" ∷ "none" ∷ "skip" ∷ [])

-- `_check_condition_and_skip`: the answer, or the text of what `render` raises
abbrev pub skips : Option (Result String String) → Result String Bool
skips none = ok false
skips (some (ok text)) = ok (is_falsy text)
skips (some (err text)) = err text

-- `if not step.condition`
abbrev pub condition_of : Option String → Option String
condition_of none = none
condition_of (some text) = if str_eq text "" then none else some text

abbrev pub rendered :
    Outside → WorkflowStepDef → ℕ → Dict Output → Option String → Option (Result String String)
rendered o step n outputs none = none
rendered o step n outputs (some text) = some (o.render step n text outputs)

skip_step : String → WorkflowStepDef → RunState → RunState
unfolding end_span insert_step
skip_step run_id step s =
    let s' = insert_step run_id step skipped (end_span (step.id) span_skipped s) in
    record s' {
      step_outputs =
          put (step.id) (record { response = ""; stdout = ""; skipped = true }) (s'.step_outputs);
    }

-- `_record_audit_and_result`
record_result :
    Outside → String → WorkflowStepDef → TaskResult → RunState → Attempt (Unit {0}) × RunState
unfolding end_span fail_rows complete_rows
record_result o run_id step result s =
    let audited = record s {
      calls =
          s.calls
          ++ record {
            agent_id = step.agent;
            model = result.model;
            tokens_input = result.tokens_input;
            tokens_output = result.tokens_output;
            success = result.success;
            tenant_id = o.tenant_of (step.agent);
          }
            ∷ [];
    } in
    let stored = record audited {
      step_outputs =
          put (step.id)
            (record { response = result.response; stdout = result.response; skipped = false })
            (s.step_outputs);
    } in
    if result.success
    then (
      returns tt,
      complete_rows run_id (step.id) (result.response) (end_span (step.id) span_ok stored),
    )
    else (
      raises ("Step '" +++ step.id +++ "' failed: " +++ result.error),
      fail_rows run_id (step.id) (result.error) (end_span (step.id) span_error audited),
    )

-- `_handle_execution_error`
handle_error : String → WorkflowStepDef → String → RunState → Attempt (Unit {0}) × RunState
unfolding end_span fail_rows
handle_error run_id step text s = (
  raises (
      if ltb 0 (step.retry)
      then "Step '" +++ step.id +++ "' failed: " +++ text
      else "Step '" +++ step.id +++ "' failed (no retry): " +++ text),
  fail_rows run_id (step.id) text (end_span (step.id) span_error s),
)

-- The part of `_execute_step` behind the checks: the row, the adapter, and what it gave
settle :
    Outside
    → String
    → WorkflowStepDef
    → Result String TaskResult
    → RunState
    → Attempt (Unit {0}) × RunState
unfolding record_result handle_error
settle o run_id step (ok result) s = record_result o run_id step result s
settle o run_id step (err text) s = handle_error run_id step text s

delegate_step :
    Outside → String → WorkflowStepDef → ℕ → String → RunState → Attempt (Unit {0}) × RunState
unfolding insert_step settle
delegate_step o run_id step n prompt s =
    settle o run_id step (o.delegate step n (o.wrap (step.agent) prompt))
      (insert_step run_id step running s)

-- The guard, which is asked in `_execute_step`; `_prepare_prompt` asks it again.
guarded :
    Outside
    → String
    → WorkflowStepDef
    → ℕ
    → String
    → Option String
    → Option String
    → RunState
    → Attempt (Unit {0}) × RunState
unfolding delegate_step end_span
guarded o run_id step n prompt none none s = delegate_step o run_id step n prompt s
guarded o run_id step n prompt none (some reason) s =
    (raises ("Step '" +++ step.id +++ "' blocked by PromptInjectionGuard: " +++ reason), s)
guarded o run_id step n prompt (some reason) again s = (
  raises ("Prompt injection detected in step '" +++ step.id +++ "': " +++ reason),
  end_span (step.id) span_blocked s,
)

-- The prompt: rendered, or what rendering raises
prompted :
    Outside
    → String
    → WorkflowStepDef
    → ℕ
    → Result String String
    → RunState
    → Attempt (Unit {0}) × RunState
unfolding guarded
prompted o run_id step n (err text) s = (raises text, s)
prompted o run_id step n (ok prompt) s =
    if o.has_guard
    then guarded o run_id step n prompt (o.guard n prompt) (o.guard n prompt) s
    else guarded o run_id step n prompt none none s

unskipped :
    Outside
    → String
    → WorkflowStepDef
    → ℕ
    → Result String Bool
    → RunState
    → Attempt (Unit {0}) × RunState
unfolding prompted skip_step
unskipped o run_id step n (err text) s = (raises text, s)
unskipped o run_id step n (ok true) s = (returns tt, skip_step run_id step s)
unskipped o run_id step n (ok false) s =
    prompted o run_id step n (o.render step n (step.prompt) (s.step_outputs)) s

-- `_execute_step`, at attempt `n`
unfoldable pub execute_step :
    Outside → String → WorkflowStepDef → ℕ → RunState → Attempt (Unit {0}) × RunState
unfolding unskipped
execute_step o run_id step n s =
    let s' = record s { spans = s.spans ++ started (step.id) ∷ [] } in
    unskipped o run_id step n
      (skips (rendered o step n (s.step_outputs) (condition_of (step.condition)))) s'

-- The retry policy of the executor, for a step
abbrev pub settings_of : WorkflowStepDef → Settings
settings_of step = record {
  has_db = true;
  base_delay = 1;
  max_delay = 30;
  max_attempts = 1 + step.retry;
  non_retryable_patterns = default_patterns;
}

-- `execute_with_retry`; `cancelled n` is whether the cancel event is set before attempt `n`.
unfoldable pub execute_with_retry :
    Outside → String → WorkflowStepDef → (ℕ → Bool) → RunState → Ended (Unit {0}) RunState
execute_with_retry o run_id step cancelled s =
    execute_in (settings_of step) (execute_step o run_id step) cancelled s
