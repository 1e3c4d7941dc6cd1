-- ===== src/Workflow/Engine/Cancel.antt =====
-- Cancellations of a run that is on, and what its end makes of them.
use sccsos.Prelude.{
  String, ◌≡◌, Bool, Option, none, some, List, [], ◌∷◌, str_eq, arith, inl, inr, Bool-cases,
  eq_refl,
}
use sccsos.Prelude.Dict.{Dict, get, get-put_self, remove, get-remove}
use sccsos.Prelude.Result.{Result, ok, err}
use sccsos.Workflow.Steps.{RunState}
use sccsos.Workflow.Engine.{
  Cause, restate, begun, WorkflowDef, Engine, conclude, update_run_status, cancel_run, cancel_found,
  set_event, scoped, RunRow, RunStatus, completed, failed, running,
}
use sccsos.Workflow.Engine.Outcome.{row_of}

-- Calls of `cancel_run` one after the other, each with its tenant
abbrev pub cancel_each : String → List String → Engine → Engine
cancel_each run_id [] e = e
cancel_each run_id (tenant ∷ ts) e = cancel_each run_id ts (cancel_run run_id tenant e).1

-- The row that the result of the steps asks for
abbrev pub ended_row : WorkflowDef → Result Cause (Unit {0}) × RunState → RunRow
ended_row wf (ok _, s) = row_of wf completed none
ended_row wf (err x, s) = row_of wf failed (some x)

-- The row of a run, with some status
abbrev HasRow : String → WorkflowDef → Engine → Type 0
HasRow run_id wf e = (s : RunStatus) × (get run_id e.workflow_runs ≡ some (row_of wf s none))

rewritten :
    (run_id : String) (f : RunRow → RunRow) (row : RunRow) (runs : Dict RunRow)
    → get run_id runs ≡ some row
    → get run_id (restate run_id f (get run_id runs) runs) ≡ some (f row)
rewritten run_id f row runs e = rw e (get-put_self run_id (f row) runs)

cancel_found-HasRow :
    (run_id : String) (wf : WorkflowDef) (tenant : String) (o : Option RunRow) (e : Engine)
    → HasRow run_id wf e
    → HasRow run_id wf (cancel_found run_id tenant o e).1
unfolding update_run_status
cancel_found-HasRow run_id wf tenant none e (s, h) = elim (Bool-cases (str_eq tenant "")) [
  | inl all ↦ rw all (
    RunStatus.cancelled,
    rewritten run_id (λ row. record row { status = RunStatus.cancelled }) (row_of wf s none)
        e.workflow_runs h,
  )
  | inr named ↦ rw named (s, h)
]
cancel_found-HasRow run_id wf tenant (some row) e (s, h) = (
  RunStatus.cancelled,
  rewritten run_id (λ r. record r { status = RunStatus.cancelled }) (row_of wf s none)
      e.workflow_runs h,
)

cancel_each-HasRow :
    (run_id : String) (wf : WorkflowDef) (tenants : List String) (e : Engine)
    → HasRow run_id wf e
    → HasRow run_id wf (cancel_each run_id tenants e)
unfolding cancel_run
cancel_each-HasRow run_id wf [] e h = h
cancel_each-HasRow run_id wf (tenant ∷ ts) e h =
    cancel_each-HasRow run_id wf ts (cancel_run run_id tenant e).1 (
      cancel_found-HasRow run_id wf tenant (scoped tenant (get run_id e.workflow_runs))
        (record e { run_contexts = set_event run_id (get run_id e.run_contexts) e.run_contexts }) h)

get-remove_self : (k : String) (d : Dict Bool) → get k (remove k d) ≡ none
get-remove_self k d = ground (arith, get-remove k k d, eq_refl k)

conclude-row :
    (run_id : String) (wf : WorkflowDef) (r : Result Cause (Unit {0}) × RunState) (e : Engine)
    → HasRow run_id wf e
    → (get run_id (conclude run_id wf r e).1.workflow_runs ≡ some (ended_row wf r))
      × (get run_id (conclude run_id wf r e).1.run_contexts ≡ none)
unfolding conclude update_run_status
conclude-row run_id wf (ok _, u) e (s, h) = (
  rewritten run_id (λ row. record row { status = completed }) (row_of wf s none) e.workflow_runs h,
  get-remove_self run_id e.run_contexts,
)
conclude-row run_id wf (err x, u) e (s, h) = (
  rewritten run_id (λ row. record row { status = failed; error = some x }) (row_of wf s none)
      e.workflow_runs h,
  get-remove_self run_id e.run_contexts,
)

-- However often and for whatever tenants `cancel_run` is called while a run is on, the row of the run
-- behind its end has what the result of its steps asks for: `completed` if they ended well, `failed` and
-- the cause if not, and no trace of the status `cancelled` that was written in between. The context with
-- the cancel event is gone. (A set cancel event may well be the cause, in the result of the steps.)
pub conclude-cancel_each :
    (run_id : String) (wf : WorkflowDef) (tenants : List String)
    (r : Result Cause (Unit {0}) × RunState) (e : Engine)
    → (get run_id
          (conclude run_id wf r (cancel_each run_id tenants (begun run_id wf e))).1.workflow_runs
        ≡ some (ended_row wf r))
      × (get run_id
            (conclude run_id wf r (cancel_each run_id tenants (begun run_id wf e))).1.run_contexts
          ≡ none)
conclude-cancel_each run_id wf tenants r e =
    conclude-row run_id wf r (cancel_each run_id tenants (begun run_id wf e)) (
      cancel_each-HasRow run_id wf tenants (begun run_id wf e)
        (running, get-put_self run_id (row_of wf running none) e.workflow_runs))
