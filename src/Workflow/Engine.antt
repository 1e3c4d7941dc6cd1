-- ===== src/Workflow/Engine.antt =====
-- sccsos/core/workflow/engine.py: `WorkflowEngine.execute`, `cancel_run` and `get_run_status`, with
-- the statements of sccsos/core/db/crud.py on `workflow_runs`. What the thread pool makes of a layer
-- is an argument (`Plan`): the order in which the tasks take effect, and how many still run after a
-- failure. The tasks of a layer write to keys and rows of their own, and what a template or the
-- adapter gives may be anything (`Outside`), so one after the other stands for side by side. Times
-- are left out; what `_get_max_concurrent` reads from the groups of the workflow is part of the plan.
pub mod Layers
pub mod Outcome
pub mod Cancel
pub mod Idle
mod Examples
use sccsos.Prelude.{
  ℕ, zero, suc, ◌+◌, String, Bool, true, false, Option, none, some, List, [], ◌∷◌, ◌++◌,
  if◌then◌else◌, str_eq, has, ◌==◌,
}
use sccsos.Prelude.Dict.{Dict, get, put, remove, keys}
use sccsos.Prelude.Result.{Result, ok, err}
use sccsos.Resilience.Retry.{value, error, RetryError}
use sccsos.Resilience.Retry.Threaded.{Ended}
use sccsos.Workflow.Definition.{WorkflowStepDef, ResolveError}
use sccsos.Workflow.Dag.{validate, get_execution_order, get_step}
use sccsos.Workflow.Steps.{Outside, StepRow, Output, Call, Span, RunState, execute_with_retry}

pub record WorkflowDef : Type 0 where
  pub name : String
  pub steps : List WorkflowStepDef

-- Why the `try` block of `execute` was left
pub data Cause : Type 0 where
  step_failed : (step_id : String) → RetryError → Cause
  parallel_failed : (step_id : String) → Cause → Cause
  order_failed : ResolveError → Cause
  no_workers : Cause
  workflow_cancelled : Cause

-- What happens to the tasks of one layer. `late` tasks are running already when the first failure is
-- seen, and end; the others are cancelled. `stopped` has the tasks that ran when the cancel event was
-- seen between two submissions, `max_workers` what `_get_max_concurrent` gives for the layer.
pub record Plan : Type 0 where
  pub cancelled : Bool
  pub max_workers : ℕ
  pub stopped : Option (List String)
  pub order : List String
  pub late : ℕ

abbrev pub StepCall : Type 0
StepCall = String → RunState → Result Cause (Unit {0}) × RunState

abbrev pub step_result : String → Ended (Unit {0}) RunState → Result Cause (Unit {0}) × RunState
step_result k ((value a, log), s) = (ok tt, s)
step_result k ((error e, log), s) = (err (step_failed k e), s)

abbrev pub run_found :
    Outside
    → String
    → (String → ℕ → Bool)
    → Result ResolveError WorkflowStepDef
    → RunState
    → Result Cause (Unit {0}) × RunState
run_found o run_id cancelled (err x) s = (err (order_failed x), s)
run_found o run_id cancelled (ok step) s =
    step_result (step.id) (execute_with_retry o run_id step (cancelled (step.id)) s)

-- `get_step`, then `execute_with_retry`
unfoldable pub run_step : Outside → String → (String → ℕ → Bool) → List WorkflowStepDef → StepCall
run_step o run_id cancelled ss k s = run_found o run_id cancelled (get_step ss k) s

-- Tasks whose results nobody waits for
unfoldable pub run_rest : StepCall → ℕ → List String → RunState → RunState
run_rest call zero ks s = s
run_rest call (suc n) [] s = s
run_rest call (suc n) (k ∷ ks) s = run_rest call n ks ((call k s).1)

abbrev pub after_task :
    StepCall
    → ℕ
    → String
    → List String
    → Result Cause (Unit {0}) × RunState
    → (RunState → Result Cause (Unit {0}) × RunState)
    → Result Cause (Unit {0}) × RunState
after_task call late k ks (ok _, s) more = more s
after_task call late k ks (err x, s) more = (err (parallel_failed k x), run_rest call late ks s)

-- The tasks in the order in which they take effect, up to the first failure
unfoldable pub run_tasks :
    StepCall → ℕ → List String → RunState → Result Cause (Unit {0}) × RunState
run_tasks call late [] s = (ok tt, s)
run_tasks call late (k ∷ ks) s =
    after_task call late k ks (call k s) (λ t. run_tasks call late ks t)

abbrev pub run_all : StepCall → List String → RunState → RunState
run_all call [] s = s
run_all call (k ∷ ks) s = run_all call ks ((call k s).1)

abbrev pub submitted :
    StepCall → Plan → Option (List String) → RunState → Result Cause (Unit {0}) × RunState
submitted call plan (some ran) s = (err workflow_cancelled, run_all call ran s)
submitted call plan none s = run_tasks call (plan.late) (plan.order) s

-- `_execute_layer_parallel`; a pool of no workers is a `ValueError`.
unfoldable pub execute_layer_parallel :
    StepCall → Plan → RunState → Result Cause (Unit {0}) × RunState
execute_layer_parallel call plan s =
    if plan.cancelled
    then (err workflow_cancelled, s)
    else if plan.max_workers == 0
    then (err no_workers, s)
    else submitted call plan (plan.stopped) s

-- `if len(layer) == 1`
unfoldable pub execute_layer :
    StepCall → Plan → List String → RunState → Result Cause (Unit {0}) × RunState
execute_layer call plan (k ∷ []) s = call k s
execute_layer call plan [] s = execute_layer_parallel call plan s
execute_layer call plan (k ∷ l ∷ ks) s = execute_layer_parallel call plan s

abbrev pub and_then_layers :
    Result Cause (Unit {0}) × RunState
    → (RunState → Result Cause (Unit {0}) × RunState)
    → Result Cause (Unit {0}) × RunState
and_then_layers (ok _, s) more = more s
and_then_layers (err x, s) more = (err x, s)

-- The loop over the layers; `plans i` is for the layer with the index `i`.
unfoldable pub execute_layers :
    StepCall → (ℕ → Plan) → ℕ → List (List String) → RunState → Result Cause (Unit {0}) × RunState
execute_layers call plans i [] s = (ok tt, s)
execute_layers call plans i (l ∷ ls) s =
    and_then_layers (execute_layer call (plans i) l s) (λ t. execute_layers call plans (i + 1) ls t)

-- The `try` block; `none` of the resolver's loop is fuel that ran out.
abbrev pub ordered_layers :
    StepCall
    → (ℕ → Plan)
    → Option (Result ResolveError (List (List String)))
    → RunState
    → Result Cause (Unit {0}) × RunState
ordered_layers call plans none s = (err (order_failed (ResolveError.cannot_schedule [])), s)
ordered_layers call plans (some (err x)) s = (err (order_failed x), s)
ordered_layers call plans (some (ok layers)) s = execute_layers call plans 0 layers s

pub data RunStatus : Type 0 where
  running completed failed cancelled : RunStatus

-- A row of `workflow_runs`; `insert_workflow_run` leaves the tenant to the column's default.
pub record RunRow : Type 0 where
  pub tenant_id : String
  pub workflow_name : String
  pub status : RunStatus
  pub error : Option Cause

pub data RunEvent : Type 0 where
  workflow_started : (run_id : String) → RunEvent
  workflow_completed : (run_id : String) → (steps : List String) → RunEvent
  workflow_failed : (run_id : String) → Cause → RunEvent

-- The engine: the runs that are on, each with whether its cancel event is set, the tables, the
-- tracer's spans by trace, and the bus
pub record Engine : Type 0 where
  pub run_contexts : Dict Bool
  pub workflow_runs : Dict RunRow
  pub workflow_steps : List StepRow
  pub calls : List Call
  pub spans : Dict (List Span)
  pub emitted : List RunEvent

pub data RunError : Type 0 where
  invalid : ResolveError → RunError
  execution_error : (workflow : String) → Cause → RunError
  key_error : (run_id : String) → RunError

-- `crud.update_workflow_run_status`, on the row if it is there
abbrev pub restate : String → (RunRow → RunRow) → Option RunRow → Dict RunRow → Dict RunRow
restate run_id f none runs = runs
restate run_id f (some row) runs = put run_id (f row) runs

unfoldable pub update_run_status : String → (RunRow → RunRow) → Engine → Engine
update_run_status run_id f e = record e {
  workflow_runs = restate run_id f (get run_id (e.workflow_runs)) (e.workflow_runs);
}

-- The state in which the `try` block begins
abbrev pub first_state : Output → Engine → RunState
first_state input e = record {
  workflow_steps = e.workflow_steps;
  step_outputs = ("input", input) ∷ [];
  calls =
      e.calls
      ++ record {
        agent_id = "orchestrator";
        model = "system";
        tokens_input = 0;
        tokens_output = 0;
        success = true;
        tenant_id = "default";
      }
        ∷ [];
  spans = [];
}

abbrev pub begun : String → WorkflowDef → Engine → Engine
begun run_id wf e = record e {
  run_contexts = put run_id false (e.run_contexts);
  workflow_runs =
      put run_id
        (record { tenant_id = "default"; workflow_name = wf.name; status = running; error = none })
        (e.workflow_runs);
  emitted = e.emitted ++ workflow_started run_id ∷ [];
}

-- What the `try` block has written besides the row of the run
abbrev pub with_state : String → RunState → Engine → Engine
with_state run_id s e = record e {
  workflow_steps = s.workflow_steps;
  calls = s.calls;
  spans = put run_id (s.spans) (e.spans);
}

-- The end of the `try` block, with its `finally`
unfoldable pub conclude :
    String
    → WorkflowDef
    → Result Cause (Unit {0}) × RunState
    → Engine
    → Result RunError String × Engine
unfolding update_run_status
conclude run_id wf (ok _, s) e =
    let e' =
      update_run_status run_id (λ row. record row { status = completed }) (with_state run_id s e) in
    (
      ok run_id,
      record e' {
        run_contexts = remove run_id (e'.run_contexts);
        emitted = e'.emitted ++ workflow_completed run_id (keys (s.step_outputs)) ∷ [];
      },
    )
conclude run_id wf (err x, s) e =
    let e' =
      update_run_status run_id (λ row. record row { status = failed; error = some x })
        (with_state run_id s e) in
    (
      err (execution_error (wf.name) x),
      record e' {
        run_contexts = remove run_id (e'.run_contexts);
        emitted = e'.emitted ++ workflow_failed run_id x ∷ [];
      },
    )

abbrev pub run_body :
    Outside
    → String
    → WorkflowDef
    → (ℕ → Plan)
    → (String → ℕ → Bool)
    → Output
    → Engine
    → Result Cause (Unit {0}) × RunState
run_body o run_id wf plans stop input e =
    ordered_layers (run_step o run_id stop (wf.steps)) plans (get_execution_order (wf.steps))
      (first_state input e)

abbrev pub checked :
    Outside
    → String
    → WorkflowDef
    → (ℕ → Plan)
    → (String → ℕ → Bool)
    → Output
    → Result ResolveError (Unit {0})
    → Engine
    → Result RunError String × Engine
checked o run_id wf plans stop input (err x) e = (err (invalid x), e)
checked o run_id wf plans stop input (ok _) e =
    conclude run_id wf (run_body o run_id wf plans stop input e) (begun run_id wf e)

-- `execute` with the new run id `run_id`; `stop k n` is whether the cancel event is set before attempt
-- `n` of step `k`: any calls of `cancel_run` while the run is on are in it.
unfoldable pub execute :
    Outside
    → ℕ
    → String
    → WorkflowDef
    → (ℕ → Plan)
    → (String → ℕ → Bool)
    → Output
    → Engine
    → Result RunError String × Engine
unfolding conclude
execute o depth run_id wf plans stop input e =
    checked o run_id wf plans stop input (validate depth (wf.steps)) e

abbrev pub scoped : String → Option RunRow → Option RunRow
scoped tenant none = none
scoped tenant (some row) =
    if str_eq tenant "" then some row else if str_eq (row.tenant_id) tenant then some row else none

-- `ctx.cancel_event.set()`, where the run is on
abbrev pub set_event : String → Option Bool → Dict Bool → Dict Bool
set_event run_id none contexts = contexts
set_event run_id (some is_set) contexts = put run_id true contexts

-- `if tenant_id and not row`
abbrev pub cancel_found :
    String → String → Option RunRow → Engine → Result RunError (Unit {0}) × Engine
cancel_found run_id tenant none e =
    if str_eq tenant ""
    then (ok tt, update_run_status run_id (λ row. record row { status = cancelled }) e)
    else (err (key_error run_id), e)
cancel_found run_id tenant (some row) e =
    (ok tt, update_run_status run_id (λ row. record row { status = cancelled }) e)

-- `cancel_run`; an empty tenant is none.
unfoldable pub cancel_run : String → String → Engine → Result RunError (Unit {0}) × Engine
cancel_run run_id tenant e =
    cancel_found run_id tenant (scoped tenant (get run_id (e.workflow_runs)))
      (record e { run_contexts = set_event run_id (get run_id (e.run_contexts)) (e.run_contexts) })

abbrev pub rows_of : String → List StepRow → List StepRow
rows_of run_id [] = []
rows_of run_id (r ∷ rows) =
    if str_eq (r.run_id) run_id then r ∷ rows_of run_id rows else rows_of run_id rows

abbrev pub status_found :
    String → List StepRow → Option RunRow → Result RunError (RunRow × List StepRow)
status_found run_id rows none = err (key_error run_id)
status_found run_id rows (some row) = ok (row, rows_of run_id rows)

-- `get_run_status`; an empty tenant is none.
unfoldable pub get_run_status : String → String → Engine → Result RunError (RunRow × List StepRow)
get_run_status run_id tenant e =
    status_found run_id (e.workflow_steps) (scoped tenant (get run_id (e.workflow_runs)))
