-- ===== src/Workflow/Engine/Examples.antt =====
-- A workflow of three steps in two layers, whose second layer runs backwards and fails.
use sccsos.Prelude.{
  ℕ, zero, suc, String, ◌≡◌, refl, Bool, true, false, not, str_eq, none, some, List, [], ◌∷◌, ◌⊎◌,
  arith,
}
use sccsos.Prelude.Dict.{get, put}
use sccsos.Prelude.Result.{ok, err}
use sccsos.Prelude.Sets.{Included}
use sccsos.Workflow.Definition.{WorkflowStepDef, ids}
use sccsos.Workflow.Dag.{validate, get_execution_order, step_map}
use sccsos.Workflow.Steps.{Outside, TaskResult, Output, Span, RunState}
use sccsos.Workflow.Steps.Rows.{is_idle}
use sccsos.Workflow.Steps.Trace.{IsInOrder}
use sccsos.Workflow.Engine.{
  Cause, Plan, WorkflowDef, Engine, completed, failed, workflow_started, workflow_completed,
  workflow_failed, execution_error, key_error, execute, conclude, cancel_run, begun,
}
use sccsos.Workflow.Engine.Layers.{ArePlans}
use sccsos.Workflow.Engine.Idle.{execute-idle}
use sccsos.Workflow.Engine.Outcome.{row_of, started_after_deps, execute_outcome}
use sccsos.Workflow.Engine.Cancel.{cancel_each, conclude-cancel_each}

abbrev step : String → List String → WorkflowStepDef
step id deps = record {
  id = id;
  name = id;
  agent = "coder";
  prompt = "go";
  input = none;
  output = none;
  depends_on = deps;
  timeout = 600;
  retry = 0;
  condition = none;
}

abbrev steps : List WorkflowStepDef
steps = step "plan" [] ∷ step "code" ("plan" ∷ []) ∷ step "test" ("plan" ∷ []) ∷ []

abbrev wf : WorkflowDef
wf = record { name = "review"; steps = steps }

abbrev layers : List (List String)
layers = ("plan" ∷ []) ∷ ("code" ∷ "test" ∷ []) ∷ []

abbrev result_of : String → TaskResult
result_of k = record {
  success = not (str_eq k "test");
  response = "done";
  error = "red";
  model = "m";
  tokens_input = 1;
  tokens_output = 1;
}

abbrev outside : Outside
outside = record {
  render = λ s n text outputs. ok text;
  guard = λ n prompt. none;
  has_guard = false;
  wrap = λ agent prompt. prompt;
  delegate = λ s n prompt. ok (result_of s.id);
  tenant_of = λ agent. "default";
}

abbrev plan : List String → Plan
plan ks = record { cancelled = false; max_workers = 2; stopped = none; order = ks; late = 1 }

abbrev plans : ℕ → Plan
plans zero = plan ("plan" ∷ [])
plans (suc n) = plan ("test" ∷ "code" ∷ [])

abbrev never : String → ℕ → Bool
never k n = false

abbrev input : Output
input = record { response = ""; stdout = ""; skipped = false }

abbrev start : Engine
start = record {
  run_contexts = [];
  workflow_runs = [];
  workflow_steps = [];
  calls = [];
  spans = [];
  emitted = [];
}

fits : ArePlans plans 0 layers
fits = (
  record { within = λ k h. h; whole = λ k h. h; stopped_within = λ ran e. absurd (cc) },
  (
    record {
      within = λ k h. ground (arith, h);
      whole = λ k h. ground (arith, h);
      stopped_within = λ ran e. absurd (cc);
    },
    tt,
  ),
)

valid : validate 100 steps ≡ ok tt
unfolding validate get put
valid = refl

ordered : get_execution_order steps ≡ some (ok layers)
unfolding get_execution_order get put
ordered = refl

started_after_deps_example :
    (trace : List Span) × (get "wf_1"
        (execute outside 100 "wf_1" wf plans never input start).1.spans
      ≡ some trace)
    × IsInOrder (step_map steps) [] trace
started_after_deps_example =
    started_after_deps outside 100 "wf_1" wf plans never input start layers valid
      (refl, (refl, (refl, tt))) ordered fits

execute_outcome_example :
    ((outputs : List String) × ((execute outside 100 "wf_1" wf plans never input start).0
        ≡ ok "wf_1")
      × (get "wf_1" (execute outside 100 "wf_1" wf plans never input start).1.workflow_runs
          ≡ some (row_of wf completed none))
      × ((execute outside 100 "wf_1" wf plans never input start).1.emitted
          ≡ workflow_started "wf_1" ∷ workflow_completed "wf_1" outputs ∷ [])
      × Included (ids steps) outputs)
    ⊎ ((x : Cause) × ((execute outside 100 "wf_1" wf plans never input start).0
          ≡ err (execution_error "review" x))
        × (get "wf_1" (execute outside 100 "wf_1" wf plans never input start).1.workflow_runs
            ≡ some (row_of wf failed (some x)))
        × ((execute outside 100 "wf_1" wf plans never input start).1.emitted
            ≡ workflow_started "wf_1" ∷ workflow_failed "wf_1" x ∷ []))
execute_outcome_example =
    execute_outcome outside 100 "wf_1" wf plans never input start layers valid
      (refl, (refl, (refl, tt))) ordered fits

execute-idle_example :
    is_idle (execute outside 100 "wf_1" wf plans never input start).1.workflow_steps ≡ true
execute-idle_example = execute-idle outside 100 "wf_1" wf plans never input start refl

abbrev ended : RunState
ended = record { workflow_steps = []; step_outputs = []; calls = []; spans = [] }

-- Another tenant sets the event, and gets the error; then the status is written.
denied : (cancel_run "wf_1" "acme" (begun "wf_1" wf start)).0 ≡ err (key_error "wf_1")
unfolding cancel_run get put
denied = refl

event_set : get "wf_1" (cancel_run "wf_1" "acme" (begun "wf_1" wf start)).1.run_contexts ≡ some true
unfolding cancel_run get put
event_set = refl

conclude-cancel_each_example :
    (get "wf_1"
        (conclude "wf_1" wf
          (ok tt, ended)
          (cancel_each "wf_1" ("acme" ∷ "default" ∷ []) (begun "wf_1" wf start))).1.workflow_runs
      ≡ some (row_of wf completed none))
    × (get "wf_1"
          (conclude "wf_1" wf
            (ok tt, ended)
            (cancel_each "wf_1" ("acme" ∷ "default" ∷ []) (begun "wf_1" wf start))).1.run_contexts
        ≡ none)
conclude-cancel_each_example =
    conclude-cancel_each "wf_1" wf ("acme" ∷ "default" ∷ []) (ok tt, ended) start
