-- ===== src/Workflow/Engine/Outcome.antt =====
-- Whole runs: what a trace, an outcome and a cancellation leave.
use sccsos.Prelude.{
  ℕ, String, ◌≡◌, refl, sym, ◌∙◌, subst, Bool, true, Option, none, some, List, [], ◌∷◌, ◌++◌, has,
  All, arith, inl, inr, ◌⊎◌, Option-cases, eq_iff,
}
use sccsos.Prelude.Dict.{Dict, get, put, keys, get-put_self}
use sccsos.Prelude.Result.{Result, ok, err}
use sccsos.Prelude.Sets.{Included, Unique, has_of_count}
use sccsos.Resilience.Retry.{value, error}
use sccsos.Resilience.Retry.Threaded.{Ended, Ends}
use sccsos.Workflow.Definition.{WorkflowStepDef, ids}
use sccsos.Workflow.Dag.{step_map, get_step, validate, get_execution_order, scheduled_in}
use sccsos.Workflow.Dag.Maps.{step_map_at, has-keys}
use sccsos.Workflow.Dag.Release.{deps_met}
use sccsos.Workflow.Dag.Order.{order-IsLayered, order_schedules_once}
use sccsos.Workflow.Steps.{
  Outside, Output, Span, RunState, settings_of, execute_step, execute_with_retry,
}
use sccsos.Workflow.Steps.Trace.{IsInOrder, settled_by, has_output, May, Finished, retried}
use sccsos.Workflow.Engine.{
  Cause, Plan, restate, begun, execution_error, workflow_started, workflow_completed,
  workflow_failed, WorkflowDef, step_result, run_found, run_step, execute_layers, first_state,
  run_body, Engine, execute, conclude, update_run_status, RunRow, RunStatus, completed, failed,
  RunError,
}
use sccsos.Workflow.Engine.Layers.{ArePlans, IsDone, Later-refl, Ran, execute_layers-Ran}

step_result-Ran :
    (m : Dict WorkflowStepDef) (step : WorkflowStepDef) (o : Outside) (run_id : String)
    (cancelled : ℕ → Bool) (t : RunState) (r : Ended (Unit {0}) RunState)
    → Ends
        (settings_of step)
        (execute_step o run_id step)
        cancelled
        (May m step.id t)
        (Finished m step.id t)
        r
    → Ran m (step.id ∷ []) t (step_result step.id r)
step_result-Ran m step o run_id cancelled t ((value a, log), u) h = (
  h.later,
  λ k e.
      subst (λ j. (has j (settled_by u) ≡ true) × (has_output j u ≡ true))
        (ground (arith, e, eq_iff step.id k)) (h.is_settled, h.has_result),
)
step_result-Ran m step o run_id cancelled t ((error x, log), u) h = h.later

module _ (o : Outside) (run_id : String) (stop : String → ℕ → Bool)
    (ss : List WorkflowStepDef) where
  run_found-Ran :
      (step : WorkflowStepDef) (t : RunState)
      → IsInOrder (step_map ss) [] t.spans
      → deps_met (step_map ss) (settled_by t) step.id ≡ true
      → Ran (step_map ss) (step.id ∷ []) t (run_found o run_id stop (ok step) t)
  run_found-Ran step t h met =
      step_result-Ran (step_map ss) step o run_id (stop step.id) t
        (execute_with_retry o run_id step (stop step.id) t)
        (retried (step_map ss) t o run_id step (stop step.id) t
          (record { later = Later-refl (step_map ss) t h; met = met }))

  All-any : (xs : List WorkflowStepDef) → All (λ s. Unit {0}) xs
  All-any [] = tt
  All-any (x ∷ xs) = (tt, All-any xs)

  pub run_step-Ran :
      (k : String) (t : RunState)
      → IsInOrder (step_map ss) [] t.spans
      → deps_met (step_map ss) (settled_by t) k ≡ true
      → Ran (step_map ss) (k ∷ []) t (run_step o run_id stop ss k t)
  unfolding run_step get_step
  run_step-Ran k t h met = elim (Option-cases (get k (step_map ss))) [
    | inl gone ↦ rw gone (Later-refl (step_map ss) t h)
    | inr (step, e) ↦
        let (_, same) = step_map_at (λ s. Unit {0}) ss k step (All-any ss) e in
        rw e (
          subst (λ j. Ran (step_map ss) (j ∷ []) t (run_found o run_id stop (ok step) t)) same
            (run_found-Ran step t h
              (subst (λ j. deps_met (step_map ss) (settled_by t) j ≡ true) (sym same) met)))
  ]

-- The state of a run behind its `try` block
abbrev pub row_of : WorkflowDef → RunStatus → Option Cause → RunRow
row_of wf status cause = record {
  tenant_id = "default";
  workflow_name = wf.name;
  status = status;
  error = cause;
}

abbrev RunsSteps : List WorkflowStepDef → Result Cause (Unit {0}) × RunState → Type 0
RunsSteps ss (ok _, u) = IsInOrder (step_map ss) [] u.spans × IsDone u (ids ss)
RunsSteps ss (err _, u) = IsInOrder (step_map ss) [] u.spans

Ran-RunsSteps :
    (ss : List WorkflowStepDef) (layers : List (List String)) (t : RunState)
    (r : Result Cause (Unit {0}) × RunState)
    → ((k : String) → has k (ids ss) ≡ true → has k (scheduled_in layers) ≡ true)
    → Ran (step_map ss) (scheduled_in layers) t r
    → RunsSteps ss r
Ran-RunsSteps ss layers t (ok _, u) sub (l, d) = (l.in_order, λ k h. d k (sub k h))
Ran-RunsSteps ss layers t (err _, u) sub l = l.in_order

all_scheduled_of :
    (ss : List WorkflowStepDef) (layers : List (List String))
    → get_execution_order ss ≡ some (ok layers)
    → (k : String) → has k (ids ss) ≡ true
    → has k (scheduled_in layers) ≡ true
all_scheduled_of ss layers e k h =
    has_of_count k (scheduled_in layers) (ground (arith, order_schedules_once ss layers e k, h))

run_body-RunsSteps :
    (o : Outside) (run_id : String) (wf : WorkflowDef) (plans : ℕ → Plan) (stop : String → ℕ → Bool)
    (input : Output) (e : Engine) (layers : List (List String))
    → Unique (ids wf.steps)
    → get_execution_order wf.steps ≡ some (ok layers)
    → ArePlans plans 0 layers
    → RunsSteps wf.steps (run_body o run_id wf plans stop input e)
run_body-RunsSteps o run_id wf plans stop input e layers u ord p = rw ord (
    Ran-RunsSteps wf.steps layers (first_state input e)
      (execute_layers (run_step o run_id stop wf.steps) plans 0 layers (first_state input e))
      (all_scheduled_of wf.steps layers ord)
      (execute_layers-Ran (step_map wf.steps) (run_step o run_id stop wf.steps)
        (λ k t h met. run_step-Ran o run_id stop wf.steps k t h met) plans 0 [] layers
        (first_state input e) p (λ k h. absurd (cc)) (order-IsLayered wf.steps layers u ord) tt))

-- What `execute` leaves of a run with a valid workflow
data Left (run_id : String) (wf : WorkflowDef) (e : Engine) (r : Result RunError String × Engine)
    : Type 0 where
  went_well :
      (u : RunState)
      → r.0 ≡ ok run_id
      → get run_id (r.1).workflow_runs ≡ some (row_of wf completed none)
      → get run_id (r.1).spans ≡ some u.spans
      → (r.1).emitted
        ≡ (e.emitted ++ workflow_started run_id ∷ [])
          ++ workflow_completed run_id (keys u.step_outputs) ∷ []
      → IsInOrder (step_map wf.steps) [] u.spans
      → IsDone u (ids wf.steps)
      → Left run_id wf e r
  went_wrong :
      (u : RunState) (x : Cause)
      → r.0 ≡ err (execution_error wf.name x)
      → get run_id (r.1).workflow_runs ≡ some (row_of wf failed (some x))
      → get run_id (r.1).spans ≡ some u.spans
      → (r.1).emitted ≡ (e.emitted ++ workflow_started run_id ∷ []) ++ workflow_failed run_id x ∷ []
      → IsInOrder (step_map wf.steps) [] u.spans
      → Left run_id wf e r

restated :
    (run_id : String) (f : RunRow → RunRow) (row : RunRow) (runs : Dict RunRow)
    → get run_id (restate run_id f (get run_id (put run_id row runs)) (put run_id row runs))
      ≡ some (f row)
restated run_id f row runs =
    rw (get-put_self run_id row runs) (get-put_self run_id (f row) (put run_id row runs))

conclude-Left :
    (run_id : String) (wf : WorkflowDef) (r : Result Cause (Unit {0}) × RunState) (e : Engine)
    → RunsSteps wf.steps r
    → Left run_id wf e (conclude run_id wf r (begun run_id wf e))
unfolding conclude update_run_status
conclude-Left run_id wf (ok _, u) e h =
    went_well u refl (restated run_id _ _ e.workflow_runs) (get-put_self run_id u.spans e.spans)
      refl h.0 h.1
conclude-Left run_id wf (err x, u) e h =
    went_wrong u x refl (restated run_id _ _ e.workflow_runs) (get-put_self run_id u.spans e.spans)
      refl h

module _ (o : Outside) (depth : ℕ) (run_id : String) (wf : WorkflowDef) (plans : ℕ → Plan)
    (stop : String → ℕ → Bool) (input : Output) (e : Engine) (layers : List (List String))
    (valid : validate depth wf.steps ≡ ok tt) (unique : Unique (ids wf.steps))
    (order : get_execution_order wf.steps ≡ some (ok layers)) (fit : ArePlans plans 0 layers) where
  execute-Left : Left run_id wf e (execute o depth run_id wf plans stop input e)
  unfolding execute
  execute-Left = rw valid (
      conclude-Left run_id wf (run_body o run_id wf plans stop input e) e
        (run_body-RunsSteps o run_id wf plans stop input e layers unique order fit))

  -- A run of a workflow that passes the checks and has unique ids records a trace in which every
  -- attempt of a step starts behind a completed or skipped attempt of each step that it depends on,
  -- for every failure, every cancellation and every order in which the tasks of a layer take effect,
  -- as long as the plan of each layer names tasks of that layer and forgets none.
  pub started_after_deps :
      (trace : List Span) × (get run_id (execute o depth run_id wf plans stop input e).1.spans
        ≡ some trace)
      × IsInOrder (step_map wf.steps) [] trace
  started_after_deps = elim execute-Left [
    | went_well u _ _ t _ i _ ↦ (u.spans, t, i)
    | went_wrong u _ _ _ t _ i ↦ (u.spans, t, i)
  ]

  outputs_of_steps :
      (u : RunState) → IsDone u (ids wf.steps) → Included (ids wf.steps) (keys u.step_outputs)
  outputs_of_steps u d k h = has-keys k u.step_outputs ∙ (d k h).1

  -- A run of a workflow that passes the checks and has unique ids, where the plan of each layer names
  -- tasks of that layer and forgets none, ends in one of two ways. Either it returns its id, its row
  -- says `completed`, and the event behind the one of its start lists an output of every step. Or it
  -- raises an execution error, its row says `failed` with the cause, and the event behind the one of
  -- its start has that cause.
  pub execute_outcome :
      ((outputs : List String) × ((execute o depth run_id wf plans stop input e).0 ≡ ok run_id)
        × (get run_id (execute o depth run_id wf plans stop input e).1.workflow_runs
            ≡ some (row_of wf completed none))
        × ((execute o depth run_id wf plans stop input e).1.emitted
            ≡ (e.emitted ++ workflow_started run_id ∷ []) ++ workflow_completed run_id outputs ∷ [])
        × Included (ids wf.steps) outputs)
      ⊎ ((x : Cause) × ((execute o depth run_id wf plans stop input e).0
            ≡ err (execution_error wf.name x))
          × (get run_id (execute o depth run_id wf plans stop input e).1.workflow_runs
              ≡ some (row_of wf failed (some x)))
          × ((execute o depth run_id wf plans stop input e).1.emitted
              ≡ (e.emitted ++ workflow_started run_id ∷ []) ++ workflow_failed run_id x ∷ []))
  execute_outcome = elim execute-Left [
    | went_well u r row _ ev _ d ↦ inl (keys u.step_outputs, r, row, ev, outputs_of_steps u d)
    | went_wrong u x r row _ ev _ ↦ inr (x, r, row, ev)
  ]
