-- ===== src/Workflow/Engine/Idle.antt =====
-- Invariants of the calls for steps are invariants of a run, and the one that a run needs for its rows.
use sccsos.Prelude.{
  ℕ, zero, suc, ◌+◌, String, ◌≡◌, refl, Bool, true, Option, none, some, List, [], ◌∷◌, inl, inr,
  Bool-cases, ◌==◌,
}
use sccsos.Prelude.Result.{Result, ok, err, Result-cases}
use sccsos.Resilience.Retry.{value, error}
use sccsos.Resilience.Retry.Threaded.{Ended}
use sccsos.Workflow.Definition.{WorkflowStepDef, ResolveError}
use sccsos.Workflow.Dag.{validate, get_step, get_execution_order}
use sccsos.Workflow.Steps.{Outside, Output, RunState, execute_with_retry}
use sccsos.Workflow.Steps.Rows.{is_idle, execute_with_retry-idle}
use sccsos.Workflow.Engine.{
  Cause, Plan, StepCall, WorkflowDef, Engine, step_result, run_found, run_step, run_rest,
  after_task, run_tasks, run_all, submitted, execute_layer_parallel, execute_layer, and_then_layers,
  execute_layers, ordered_layers, first_state, begun, conclude, execute,
}

module _ (P : RunState → Type 0) (call : StepCall)
    (keeps : (k : String) (s : RunState) → P s → P (call k s).1) where
  run_rest-keeps : (n : ℕ) (ks : List String) (s : RunState) → P s → P (run_rest call n ks s)
  unfolding run_rest
  run_rest-keeps zero ks s p = p
  run_rest-keeps (suc n) [] s p = p
  run_rest-keeps (suc n) (k ∷ ks) s p = run_rest-keeps n ks (call k s).1 (keeps k s p)

  run_all-keeps : (ks : List String) (s : RunState) → P s → P (run_all call ks s)
  run_all-keeps [] s p = p
  run_all-keeps (k ∷ ks) s p = run_all-keeps ks (call k s).1 (keeps k s p)

  after_task-keeps :
      (late : ℕ) (k : String) (ks : List String) (r : Result Cause (Unit {0}) × RunState)
      (more : RunState → Result Cause (Unit {0}) × RunState)
      → P r.1
      → ((s : RunState) → P s → P (more s).1)
      → P (after_task call late k ks r more).1
  after_task-keeps late k ks (ok _, s) more p m = m s p
  after_task-keeps late k ks (err x, s) more p m = run_rest-keeps late ks s p

  run_tasks-keeps :
      (late : ℕ) (ks : List String) (s : RunState) → P s → P (run_tasks call late ks s).1
  unfolding run_tasks
  run_tasks-keeps late [] s p = p
  run_tasks-keeps late (k ∷ ks) s p =
      after_task-keeps late k ks (call k s) (λ t. run_tasks call late ks t) (keeps k s p)
        (λ t q. run_tasks-keeps late ks t q)

  submitted-keeps :
      (plan : Plan) (ran : Option (List String)) (s : RunState)
      → P s
      → P (submitted call plan ran s).1
  submitted-keeps plan none s p = run_tasks-keeps plan.late plan.order s p
  submitted-keeps plan (some ran) s p = run_all-keeps ran s p

  parallel-keeps : (plan : Plan) (s : RunState) → P s → P (execute_layer_parallel call plan s).1
  unfolding execute_layer_parallel
  parallel-keeps plan s p = elim (Bool-cases plan.cancelled) [
    | inl on ↦ rw on p
    | inr off ↦ rw off (elim (Bool-cases (plan.max_workers == 0)) [
      | inl empty ↦ rw empty p
      | inr some_there ↦ rw some_there (submitted-keeps plan plan.stopped s p)
    ])
  ]

  execute_layer-keeps :
      (plan : Plan) (l : List String) (s : RunState) → P s → P (execute_layer call plan l s).1
  unfolding execute_layer
  execute_layer-keeps plan [] s p = parallel-keeps plan s p
  execute_layer-keeps plan (k ∷ []) s p = keeps k s p
  execute_layer-keeps plan (k ∷ j ∷ ks) s p = parallel-keeps plan s p

  and_then_layers-keeps :
      (r : Result Cause (Unit {0}) × RunState)
      (more : RunState → Result Cause (Unit {0}) × RunState)
      → P r.1
      → ((s : RunState) → P s → P (more s).1)
      → P (and_then_layers r more).1
  and_then_layers-keeps (ok _, s) more p m = m s p
  and_then_layers-keeps (err x, s) more p m = p

  execute_layers-keeps :
      (plans : ℕ → Plan) (i : ℕ) (ls : List (List String)) (s : RunState)
      → P s
      → P (execute_layers call plans i ls s).1
  unfolding execute_layers
  execute_layers-keeps plans i [] s p = p
  execute_layers-keeps plans i (l ∷ ls) s p =
      and_then_layers-keeps (execute_layer call (plans i) l s)
        (λ t. execute_layers call plans (i + 1) ls t) (execute_layer-keeps (plans i) l s p)
        (λ t q. execute_layers-keeps plans (i + 1) ls t q)

  ordered_layers-keeps :
      (plans : ℕ → Plan) (r : Option (Result ResolveError (List (List String)))) (s : RunState)
      → P s
      → P (ordered_layers call plans r s).1
  ordered_layers-keeps plans none s p = p
  ordered_layers-keeps plans (some (err x)) s p = p
  ordered_layers-keeps plans (some (ok ls)) s p = execute_layers-keeps plans 0 ls s p

-- The rows of a state
abbrev IsIdle : RunState → Type 0
IsIdle s = is_idle s.workflow_steps ≡ true

step_result-state : (k : String) (r : Ended (Unit {0}) RunState) → (step_result k r).1 ≡ r.1
step_result-state k ((value a, log), s) = refl
step_result-state k ((error e, log), s) = refl

run_found-IsIdle :
    (o : Outside) (run_id : String) (stop : String → ℕ → Bool)
    (r : Result ResolveError WorkflowStepDef) (s : RunState)
    → IsIdle s
    → IsIdle (run_found o run_id stop r s).1
run_found-IsIdle o run_id stop (err x) s i = i
run_found-IsIdle o run_id stop (ok step) s i =
    rw (step_result-state step.id (execute_with_retry o run_id step (stop step.id) s))
      (execute_with_retry-idle o run_id step (stop step.id) s i)

run_step-IsIdle :
    (o : Outside) (run_id : String) (stop : String → ℕ → Bool) (ss : List WorkflowStepDef)
    (k : String) (s : RunState)
    → IsIdle s
    → IsIdle (run_step o run_id stop ss k s).1
unfolding run_step
run_step-IsIdle o run_id stop ss k s i = run_found-IsIdle o run_id stop (get_step ss k) s i

conclude-rows :
    (run_id : String) (wf : WorkflowDef) (r : Result Cause (Unit {0}) × RunState) (e : Engine)
    → (conclude run_id wf r e).1.workflow_steps ≡ r.1.workflow_steps
unfolding conclude
conclude-rows run_id wf (ok _, s) e = refl
conclude-rows run_id wf (err x, s) e = refl

-- A run leaves no row of a step that says `running`, in whatever order the tasks of its layers take
-- effect, and whatever fails or is cancelled, if there was no such row before.
pub execute-idle :
    (o : Outside) (depth : ℕ) (run_id : String) (wf : WorkflowDef) (plans : ℕ → Plan)
    (stop : String → ℕ → Bool) (input : Output) (e : Engine)
    → is_idle e.workflow_steps ≡ true
    → is_idle (execute o depth run_id wf plans stop input e).1.workflow_steps ≡ true
unfolding execute
execute-idle o depth run_id wf plans stop input e i =
    elim (Result-cases (validate depth wf.steps)) [
      | inl (_, v) ↦ rw v (
          rw
            (conclude-rows run_id wf
              (ordered_layers (run_step o run_id stop wf.steps) plans (get_execution_order wf.steps)
                (first_state input e))
              (begun run_id wf e))
            (ordered_layers-keeps IsIdle (run_step o run_id stop wf.steps)
              (λ k s p. run_step-IsIdle o run_id stop wf.steps k s p) plans
              (get_execution_order wf.steps) (first_state input e) i))
      | inr (_, v) ↦ rw v i
    ]
