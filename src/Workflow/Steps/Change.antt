-- ===== src/Workflow/Steps/Change.antt =====
-- What one attempt of a step adds to the trace and to the outputs.
use sccsos.Prelude.{
  ℕ, String, ◌≡◌, refl, Bool, true, false, Option, none, some, List, [], ◌∷◌, ◌++◌, inl, inr,
  Bool-cases,
}
use sccsos.Prelude.Dict.{Dict, put}
use sccsos.Prelude.Result.{Result, ok, err}
use sccsos.Workflow.Definition.{WorkflowStepDef}
use sccsos.Workflow.Steps.{
  Outside, running, RunState, Span, started, ended, SpanStatus, span_ok, span_error, span_skipped,
  span_blocked, Output, TaskResult, end_span, insert_step, fail_rows, complete_rows, skip_step,
  record_result, handle_error, settle, delegate_step, guarded, prompted, unskipped, skips, rendered,
  condition_of, execute_step,
}
use sccsos.Resilience.Retry.{Attempt, returns, raises}

-- A span that ends so leaves an output.
abbrev pub settles : SpanStatus → Bool
settles span_ok = true
settles span_skipped = true
settles span_error = false
settles span_blocked = false

-- What one attempt of step `k` adds to the trace and to the outputs.
pub data Change (k : String) (trace : List Span) (outputs : Dict Output)
    (r : Attempt (Unit {0}) × RunState) : Type 0 where
  stopped :
      (text : String)
      → r.0 ≡ raises text
      → (r.1).spans ≡ trace
      → (r.1).step_outputs ≡ outputs
      → Change k trace outputs r
  ended_badly :
      (text : String) (st : SpanStatus)
      → settles st ≡ false
      → r.0 ≡ raises text
      → (r.1).spans ≡ trace ++ ended k st ∷ []
      → (r.1).step_outputs ≡ outputs
      → Change k trace outputs r
  settled :
      (st : SpanStatus) (v : Output)
      → settles st ≡ true
      → r.0 ≡ returns tt
      → (r.1).spans ≡ trace ++ ended k st ∷ []
      → (r.1).step_outputs ≡ put k v outputs
      → Change k trace outputs r

abbrev pub Effect : String → RunState → Attempt (Unit {0}) × RunState → Type 0
Effect k s r = Change k s.spans s.step_outputs r

record_result-Effect :
    (o : Outside) (run_id : String) (step : WorkflowStepDef) (result : TaskResult) (s : RunState)
    → Effect step.id s (record_result o run_id step result s)
unfolding record_result end_span fail_rows complete_rows
record_result-Effect o run_id step result s = elim (Bool-cases result.success) [
  | inl good ↦ rw good (settled span_ok _ refl refl refl refl)
  | inr bad ↦ rw bad (ended_badly _ span_error refl refl refl refl)
]

settle-Effect :
    (o : Outside) (run_id : String) (step : WorkflowStepDef) (r : Result String TaskResult)
    (s : RunState)
    → Effect step.id s (settle o run_id step r s)
unfolding settle handle_error end_span fail_rows
settle-Effect o run_id step (ok result) s = record_result-Effect o run_id step result s
settle-Effect o run_id step (err text) s = ended_badly _ span_error refl refl refl refl

guarded-Effect :
    (o : Outside) (run_id : String) (step : WorkflowStepDef) (n : ℕ) (prompt : String)
    (g h : Option String) (s : RunState)
    → Effect step.id s (guarded o run_id step n prompt g h s)
unfolding guarded delegate_step insert_step end_span
guarded-Effect o run_id step n prompt none none s =
    settle-Effect o run_id step (o.delegate step n (o.wrap step.agent prompt))
      (insert_step run_id step running s)
guarded-Effect o run_id step n prompt none (some reason) s = stopped _ refl refl refl
guarded-Effect o run_id step n prompt (some reason) h s =
    ended_badly _ span_blocked refl refl refl refl

prompted-Effect :
    (o : Outside) (run_id : String) (step : WorkflowStepDef) (n : ℕ) (r : Result String String)
    (s : RunState)
    → Effect step.id s (prompted o run_id step n r s)
unfolding prompted
prompted-Effect o run_id step n (err text) s = stopped text refl refl refl
prompted-Effect o run_id step n (ok prompt) s = elim (Bool-cases o.has_guard) [
  | inl on ↦ rw on (guarded-Effect o run_id step n prompt (o.guard n prompt) (o.guard n prompt) s)
  | inr off ↦ rw off (guarded-Effect o run_id step n prompt none none s)
]

unskipped-Effect :
    (o : Outside) (run_id : String) (step : WorkflowStepDef) (n : ℕ) (r : Result String Bool)
    (s : RunState)
    → Effect step.id s (unskipped o run_id step n r s)
unfolding unskipped skip_step insert_step end_span
unskipped-Effect o run_id step n (err text) s = stopped text refl refl refl
unskipped-Effect o run_id step n (ok true) s = settled span_skipped _ refl refl refl refl
unskipped-Effect o run_id step n (ok false) s =
    prompted-Effect o run_id step n (o.render step n step.prompt s.step_outputs) s

-- The state in which an attempt has started its span
abbrev pub with_start : String → RunState → RunState
with_start k s = record s { spans = s.spans ++ started k ∷ [] }

pub execute_step-Effect :
    (o : Outside) (run_id : String) (step : WorkflowStepDef) (n : ℕ) (s : RunState)
    → Effect step.id (with_start step.id s) (execute_step o run_id step n s)
unfolding execute_step
execute_step-Effect o run_id step n s =
    unskipped-Effect o run_id step n
      (skips (rendered o step n s.step_outputs (condition_of step.condition)))
      (with_start step.id s)
