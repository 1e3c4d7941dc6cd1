-- ===== src/Workflow/Steps/Rows.antt =====
-- What a step does to the rows of `workflow_steps`.
use sccsos.Prelude.{
  ℕ, String, ◌≡◌, refl, ap, ◌∙◌, Bool, true, false, not, ◌&&◌, Option, none, some, List, [], ◌∷◌,
  ◌++◌, if◌then◌else◌, str_eq, every, arith, inl, inr, ◌⊎◌, Bool-cases, eq_refl,
}
use sccsos.Prelude.Dict.{get, get-put_self}
use sccsos.Prelude.Result.{Result, ok, err}
use sccsos.Prelude.Text.{cut}
use sccsos.Workflow.Definition.{WorkflowStepDef}
use sccsos.Workflow.Steps.{
  Outside, StepStatus, running, skipped, completed, failed, StepRow, RunState, TaskResult, Output,
  update_rows, end_span, insert_step, fail_rows, complete_rows, skip_step, record_result,
  handle_error, settle, delegate_step, guarded, prompted, unskipped, skips, rendered, condition_of,
  execute_step, settings_of, execute_with_retry,
}
use sccsos.Workflow.Steps.Change.{with_start}
use sccsos.Resilience.Retry.{Attempt, returns, raises, value, error}
use sccsos.Resilience.Retry.Threaded.{Ended, Ends, execute_in-Ends}

abbrev row_of : String → WorkflowStepDef → StepStatus → StepRow
row_of run_id step status = record {
  run_id = run_id;
  step_id = step.id;
  agent_name = step.agent;
  status = status;
  output = none;
  error = none;
}

abbrev as_failed : String → StepRow → StepRow
as_failed text r = record r { status = failed; error = some (cut 500 text) }

abbrev as_completed : String → StepRow → StepRow
as_completed text r = record r { status = completed; output = some (cut 1000 text) }

abbrev skipped_output : Output
skipped_output = record { response = ""; stdout = ""; skipped = true }

-- What one attempt makes of the rows
data RowChange (run_id : String) (step : WorkflowStepDef) (rows : List StepRow)
    (r : Attempt (Unit {0}) × RunState) : Type 0 where
  untouched :
      (text : String)
      → r.0 ≡ raises text
      → (r.1).workflow_steps ≡ rows
      → RowChange run_id step rows r
  marked_failed :
      (text why : String)
      → r.0 ≡ raises text
      → (r.1).workflow_steps
        ≡ update_rows run_id step.id (as_failed why) (rows ++ row_of run_id step running ∷ [])
      → RowChange run_id step rows r
  marked_skipped :
      r.0 ≡ returns tt
      → (r.1).workflow_steps ≡ rows ++ row_of run_id step skipped ∷ []
      → get step.id (r.1).step_outputs ≡ some skipped_output
      → RowChange run_id step rows r
  marked_completed :
      (text : String)
      → r.0 ≡ returns tt
      → (r.1).workflow_steps
        ≡ update_rows run_id step.id (as_completed text) (rows ++ row_of run_id step running ∷ [])
      → RowChange run_id step rows r

module _ (o : Outside) (run_id : String) (step : WorkflowStepDef) where
  settle-RowChange :
      (r : Result String TaskResult) (s : RunState)
      → RowChange run_id step s.workflow_steps
          (settle o run_id step r (insert_step run_id step running s))
  unfolding settle record_result handle_error insert_step end_span fail_rows complete_rows
  settle-RowChange (ok result) s = elim (Bool-cases result.success) [
    | inl good ↦ rw good (marked_completed _ refl refl)
    | inr bad ↦ rw bad (marked_failed _ _ refl refl)
  ]
  settle-RowChange (err text) s = marked_failed _ _ refl refl

  guarded-RowChange :
      (n : ℕ) (prompt : String) (g h : Option String) (s : RunState)
      → RowChange run_id step s.workflow_steps (guarded o run_id step n prompt g h s)
  unfolding guarded delegate_step end_span
  guarded-RowChange n prompt none none s =
      settle-RowChange (o.delegate step n (o.wrap step.agent prompt)) s
  guarded-RowChange n prompt none (some reason) s = untouched _ refl refl
  guarded-RowChange n prompt (some reason) h s = untouched _ refl refl

  prompted-RowChange :
      (n : ℕ) (r : Result String String) (s : RunState)
      → RowChange run_id step s.workflow_steps (prompted o run_id step n r s)
  unfolding prompted
  prompted-RowChange n (err text) s = untouched _ refl refl
  prompted-RowChange n (ok prompt) s = elim (Bool-cases o.has_guard) [
    | inl on ↦ rw on (guarded-RowChange n prompt (o.guard n prompt) (o.guard n prompt) s)
    | inr off ↦ rw off (guarded-RowChange n prompt none none s)
  ]

  unskipped-RowChange :
      (n : ℕ) (r : Result String Bool) (s : RunState)
      → RowChange run_id step s.workflow_steps (unskipped o run_id step n r s)
  unfolding unskipped skip_step insert_step end_span
  unskipped-RowChange n (err text) s = untouched _ refl refl
  unskipped-RowChange n (ok true) s =
      marked_skipped refl refl (get-put_self step.id skipped_output s.step_outputs)
  unskipped-RowChange n (ok false) s =
      prompted-RowChange n (o.render step n step.prompt s.step_outputs) s

  execute_step-RowChange :
      (n : ℕ) (s : RunState)
      → RowChange run_id step s.workflow_steps (execute_step o run_id step n s)
  unfolding execute_step
  execute_step-RowChange n s =
      unskipped-RowChange n (skips (rendered o step n s.step_outputs (condition_of step.condition)))
        (with_start step.id s)

-- No row says that its step is still running.
abbrev pub is_running : StepStatus → Bool
is_running running = true
is_running skipped = false
is_running completed = false
is_running failed = false

abbrev pub is_idle : List StepRow → Bool
is_idle = every (λ r. not (is_running r.status))

is_idle-append : (xs ys : List StepRow) → is_idle (xs ++ ys) ≡ (is_idle xs && is_idle ys)
is_idle-append [] ys = refl
is_idle-append (x ∷ xs) ys = ground (arith, is_idle-append xs ys)

-- A row that is added and then updated with all rows of its step
is_idle-update_rows :
    (run_id : String) (step : WorkflowStepDef) (f : StepRow → StepRow) (rows : List StepRow)
    → ((r : StepRow) → is_running (f r).status ≡ false)
    → is_idle rows ≡ true
    → is_idle (update_rows run_id step.id f (rows ++ row_of run_id step running ∷ [])) ≡ true
unfolding update_rows
is_idle-update_rows run_id step f [] h i =
    ground (arith, h (row_of run_id step running), eq_refl run_id, eq_refl step.id)
is_idle-update_rows run_id step f (r ∷ rows) h i =
    ground (arith, is_idle-update_rows run_id step f rows h, h r, i)

-- The rows of a step of a run
abbrev pub is_row_of : String → String → StepRow → Bool
is_row_of run_id k r = str_eq r.run_id run_id && str_eq r.step_id k

abbrev pub is_completed : StepStatus → Bool
is_completed running = false
is_completed skipped = false
is_completed completed = true
is_completed failed = false

abbrev pub are_completed : String → String → List StepRow → Bool
are_completed run_id k = every (λ r. if is_row_of run_id k r then is_completed r.status else true)

are_completed-update_rows :
    (run_id k text : String) (rows : List StepRow)
    → are_completed run_id k (update_rows run_id k (as_completed text) rows) ≡ true
unfolding update_rows
are_completed-update_rows run_id k text [] = refl
are_completed-update_rows run_id k text (r ∷ rows) =
    ground (arith, are_completed-update_rows run_id k text rows)

-- The last output of step `k` says that its condition skipped it.
abbrev pub WasSkipped : String → RunState → Type 0
WasSkipped k s = get k s.step_outputs ≡ some skipped_output

RowChange-idle :
    (run_id : String) (step : WorkflowStepDef) (rows : List StepRow)
    (r : Attempt (Unit {0}) × RunState)
    → RowChange run_id step rows r
    → is_idle rows ≡ true
    → is_idle (r.1).workflow_steps ≡ true
RowChange-idle run_id step rows r (untouched _ _ e) i = ap is_idle e ∙ i
RowChange-idle run_id step rows r (marked_failed _ why _ e) i =
    ap is_idle e ∙ is_idle-update_rows run_id step (as_failed why) rows (λ x. refl) i
RowChange-idle run_id step rows r (marked_skipped _ e _) i =
    ap is_idle e ∙ ground (arith, is_idle-append rows (row_of run_id step skipped ∷ []), i)
RowChange-idle run_id step rows r (marked_completed text _ e) i =
    ap is_idle e ∙ is_idle-update_rows run_id step (as_completed text) rows (λ x. refl) i

RowChange-success :
    (run_id : String) (step : WorkflowStepDef) (rows : List StepRow)
    (r : Attempt (Unit {0}) × RunState)
    → RowChange run_id step rows r
    → r.0 ≡ returns tt
    → WasSkipped step.id r.1 ⊎ (are_completed run_id step.id (r.1).workflow_steps ≡ true)
RowChange-success run_id step rows r (untouched _ x _) y = absurd (cc)
RowChange-success run_id step rows r (marked_failed _ _ x _) y = absurd (cc)
RowChange-success run_id step rows r (marked_skipped _ _ out) y = inl out
RowChange-success run_id step rows r (marked_completed text _ e) y = inr (
    ap (are_completed run_id step.id) e
    ∙ are_completed-update_rows run_id step.id text (rows ++ row_of run_id step running ∷ []))

same_end :
    (P : RunState → Type 0) (o : Outside) (run_id : String) (step : WorkflowStepDef)
    (stop : ℕ → Bool) (r : Ended (Unit {0}) RunState)
    → Ends (settings_of step) (execute_step o run_id step) stop P P r
    → P r.1
same_end P o run_id step stop ((value a, log), s) h = h
same_end P o run_id step stop ((error e, log), s) h = h

-- A step of a workflow leaves no row that says `running`, whatever the templates, the guard and the
-- adapter give, and however its attempts end, if there was no such row before.
pub execute_with_retry-idle :
    (o : Outside) (run_id : String) (step : WorkflowStepDef) (stop : ℕ → Bool) (s : RunState)
    → is_idle s.workflow_steps ≡ true
    → is_idle (execute_with_retry o run_id step stop s).1.workflow_steps ≡ true
unfolding execute_with_retry
execute_with_retry-idle o run_id step stop s i =
    let P : RunState → Type 0 = λ t. is_idle t.workflow_steps ≡ true in
    let keeps : (n : ℕ) (t : RunState) → P t → P (execute_step o run_id step n t).1 = λ n t p.
      RowChange-idle run_id step t.workflow_steps (execute_step o run_id step n t)
        (execute_step-RowChange o run_id step n t) p in
    same_end P o run_id step stop (execute_with_retry o run_id step stop s) (
      execute_in-Ends (settings_of step) (execute_step o run_id step) stop P P
        (λ n t a p e. keeps n t p) (λ n t m p e. keeps n t p) s i)

succeeded :
    (Q : RunState → Type 0) (o : Outside) (run_id : String) (step : WorkflowStepDef)
    (stop : ℕ → Bool) (r : Ended (Unit {0}) RunState)
    → Ends (settings_of step) (execute_step o run_id step) stop (λ t. Unit {0}) Q r
    → r.0.0 ≡ value tt
    → Q r.1
succeeded Q o run_id step stop ((value a, log), s) h e = h
succeeded Q o run_id step stop ((error x, log), s) h e = absurd (cc)

-- When a step ends well, either its condition skipped it, or all of its rows in this run say
-- `completed`, also those of the attempts that failed before.
pub success_completes_rows :
    (o : Outside) (run_id : String) (step : WorkflowStepDef) (stop : ℕ → Bool) (s : RunState)
    → (execute_with_retry o run_id step stop s).0.0 ≡ value tt
    → WasSkipped step.id (execute_with_retry o run_id step stop s).1
      ⊎ (are_completed run_id step.id (execute_with_retry o run_id step stop s).1.workflow_steps
          ≡ true)
unfolding execute_with_retry
success_completes_rows o run_id step stop s e =
    succeeded (λ t. WasSkipped step.id t ⊎ (are_completed run_id step.id t.workflow_steps ≡ true)) o
      run_id step stop (execute_with_retry o run_id step stop s)
      (execute_in-Ends (settings_of step) (execute_step o run_id step) stop (λ t. Unit {0})
        (λ t. WasSkipped step.id t ⊎ (are_completed run_id step.id t.workflow_steps ≡ true))
        (λ n t a p x.
          RowChange-success run_id step t.workflow_steps (execute_step o run_id step n t)
            (execute_step-RowChange o run_id step n t) x)
        (λ n t m p x. tt) s tt)
      e
