-- ===== src/Workflow/Steps/Trace.antt =====
-- What a step does to the trace and to the outputs of a run.
use sccsos.Prelude.{
  ℕ, String, ◌≡◌, refl, sym, ap, ◌∙◌, subst, Bool, true, List, [], ◌∷◌, ◌++◌, if◌then◌else◌, has,
  arith, eq_refl,
}
use sccsos.Prelude.Dict.{Dict, put, get-put, get-put_self}
use sccsos.Workflow.Definition.{WorkflowStepDef}
use sccsos.Workflow.Steps.{
  Outside, RunState, Span, started, ended, SpanStatus, Output, execute_step, settings_of,
  execute_with_retry,
}
use sccsos.Workflow.Dag.{contains}
use sccsos.Workflow.Dag.Release.{deps_met}
use sccsos.Prelude.Sets.{Included}
use sccsos.Resilience.Retry.{Attempt, returns, raises}
use sccsos.Resilience.Retry.Threaded.{Ends, execute_in-Ends}
use sccsos.Workflow.Steps.Change.{
  settles, Effect, with_start, execute_step-Effect, stopped, ended_badly, settled,
}

-- The steps that a trace has settled, the last first
abbrev pub done_after : List String → List Span → List String
done_after done [] = done
done_after done (started k ∷ t) = done_after done t
done_after done (ended k st ∷ t) = done_after (if settles st then k ∷ done else done) t

-- Every step starts when all its dependencies have settled.
abbrev pub IsInOrder : Dict WorkflowStepDef → List String → List Span → Type 0
IsInOrder m done [] = Unit
IsInOrder m done (started k ∷ t) = (deps_met m done k ≡ true) × IsInOrder m done t
IsInOrder m done (ended k st ∷ t) = IsInOrder m (if settles st then k ∷ done else done) t

done_after-append :
    (done : List String) (xs ys : List Span)
    → done_after done (xs ++ ys) ≡ done_after (done_after done xs) ys
done_after-append done [] ys = refl
done_after-append done (started k ∷ xs) ys = done_after-append done xs ys
done_after-append done (ended k st ∷ xs) ys =
    done_after-append (if settles st then k ∷ done else done) xs ys

IsInOrder-append :
    (m : Dict WorkflowStepDef) (done : List String) (xs ys : List Span)
    → IsInOrder m done xs
    → IsInOrder m (done_after done xs) ys
    → IsInOrder m done (xs ++ ys)
IsInOrder-append m done [] ys h k = k
IsInOrder-append m done (started j ∷ xs) ys h k = (h.0, IsInOrder-append m done xs ys h.1 k)
IsInOrder-append m done (ended j st ∷ xs) ys h k =
    IsInOrder-append m (if settles st then j ∷ done else done) xs ys h k

-- What a run has settled, and what it holds an output of
abbrev pub settled_by : RunState → List String
settled_by s = done_after [] s.spans

abbrev pub has_output : String → RunState → Bool
has_output k s = contains k s.step_outputs

-- A later state of a run whose trace is in order
pub record Later (m : Dict WorkflowStepDef) (s t : RunState) : Type 0 where
  pub in_order : IsInOrder m [] t.spans
  pub settled_still : Included (settled_by s) (settled_by t)
  pub outputs_still : (j : String) → has_output j s ≡ true → has_output j t ≡ true

-- Step `k` may start.
pub record May (m : Dict WorkflowStepDef) (k : String) (s t : RunState) : Type 0 where
  pub later : Later m s t
  pub met : deps_met m (settled_by t) k ≡ true

pub record Finished (m : Dict WorkflowStepDef) (k : String) (s t : RunState) : Type 0 where
  pub later : Later m s t
  pub is_settled : has k (settled_by t) ≡ true
  pub has_result : has_output k t ≡ true

started-IsInOrder :
    (m : Dict WorkflowStepDef) (k : String) (t : RunState)
    → IsInOrder m [] t.spans
    → deps_met m (settled_by t) k ≡ true
    → IsInOrder m [] (with_start k t).spans
started-IsInOrder m k t h met = IsInOrder-append m [] t.spans (started k ∷ []) h (met, tt)

ended-IsInOrder :
    (m : Dict WorkflowStepDef) (k : String) (st : SpanStatus) (t : RunState)
    → IsInOrder m [] t.spans
    → IsInOrder m [] (t.spans ++ ended k st ∷ [])
ended-IsInOrder m k st t h = IsInOrder-append m [] t.spans (ended k st ∷ []) h tt

-- What a trace that goes on from a later state keeps
Later-from :
    (m : Dict WorkflowStepDef) (s t u : RunState)
    → Later m s t
    → IsInOrder m [] u.spans
    → Included (settled_by t) (settled_by u)
    → ((j : String) → has_output j t ≡ true → has_output j u ≡ true)
    → Later m s u
Later-from m s t u l o i k = record {
  in_order = o;
  settled_still = λ j h. i j (l.settled_still j h);
  outputs_still = λ j h. k j (l.outputs_still j h);
}

settled-start : (k : String) (t : RunState) → settled_by (with_start k t) ≡ settled_by t
settled-start k t = done_after-append [] t.spans (started k ∷ [])

grown :
    (k : String) (st : SpanStatus) (done : List String)
    → Included done (if settles st then k ∷ done else done)
grown k st done j h = ground (arith, h)

-- The state behind one attempt of a step that may start
module _ (m : Dict WorkflowStepDef) (s : RunState) (o : Outside) (run_id : String)
    (step : WorkflowStepDef) where
  spans-Later :
      (n : ℕ) (t u : RunState) (st : SpanStatus)
      → May m step.id s t
      → u.spans ≡ (with_start step.id t).spans ++ ended step.id st ∷ []
      → ((j : String) → has_output j t ≡ true → has_output j u ≡ true)
      → Later m s u × (settled_by u ≡ (if settles st then step.id ∷ settled_by t else settled_by t))
  spans-Later n t u st may e kept =
      let begun = started-IsInOrder m step.id t may.later.in_order may.met in
      let closed = ended-IsInOrder m step.id st (with_start step.id t) begun in
      let eq =
        ap (done_after []) e
        ∙ done_after-append [] (with_start step.id t).spans (ended step.id st ∷ [])
        ∙ ap (λ d. if settles st then step.id ∷ d else d) (settled-start step.id t) in
      (
        Later-from m s t u may.later (subst (IsInOrder m []) (sym e) closed)
            (λ j h. subst (λ d. has j d ≡ true) (sym eq) (grown step.id st (settled_by t) j h))
            kept,
        eq,
      )

  -- Outputs that an attempt leaves alone, or adds one to
  kept_same :
      (t u : RunState)
      → u.step_outputs ≡ t.step_outputs
      → (j : String) → has_output j t ≡ true
      → has_output j u ≡ true
  kept_same t u e j h = ap (contains j) e ∙ h

  kept_put :
      (t u : RunState) (v : Output)
      → u.step_outputs ≡ put step.id v t.step_outputs
      → (j : String) → has_output j t ≡ true
      → has_output j u ≡ true
  kept_put t u v e j h = ap (contains j) e ∙ ground (arith, get-put step.id j v t.step_outputs, h)

  stopped-Later :
      (t u : RunState)
      → May m step.id s t
      → u.spans ≡ (with_start step.id t).spans
      → u.step_outputs ≡ t.step_outputs
      → May m step.id s u
  stopped-Later t u may e same =
      let eq = ap (done_after []) e ∙ settled-start step.id t in
      record {
        later =
            Later-from m s t u may.later
              (subst (IsInOrder m []) (sym e)
                (started-IsInOrder m step.id t may.later.in_order may.met))
              (λ j h. subst (λ d. has j d ≡ true) (sym eq) h) (kept_same t u same);
        met = subst (λ d. deps_met m d step.id ≡ true) (sym eq) may.met;
      }

  Change-May :
      (n : ℕ) (t : RunState) (text : String) (r : Attempt (Unit {0}) × RunState)
      → May m step.id s t
      → Effect step.id (with_start step.id t) r
      → r.0 ≡ raises text
      → May m step.id s r.1
  Change-May n t text r may (stopped _ _ e same) x = stopped-Later t r.1 may e same
  Change-May n t text r may (ended_badly _ st bad _ e same) x =
      let (l, eq) = spans-Later n t r.1 st may e (kept_same t r.1 same) in
      record {
        later = l;
        met =
            subst (λ d. deps_met m d step.id ≡ true)
              (sym (eq ∙ ap (λ b. if b then step.id ∷ settled_by t else settled_by t) bad)) may.met;
      }
  Change-May n t text r may (settled _ _ _ y _ _) x = absurd (cc)

  Change-Finished :
      (n : ℕ) (t : RunState) (r : Attempt (Unit {0}) × RunState)
      → May m step.id s t
      → Effect step.id (with_start step.id t) r
      → r.0 ≡ returns tt
      → Finished m step.id s r.1
  Change-Finished n t r may (stopped _ y _ _) x = absurd (cc)
  Change-Finished n t r may (ended_badly _ _ _ y _ _) x = absurd (cc)
  Change-Finished n t r may (settled st v good y e out) x =
      let (l, eq) = spans-Later n t r.1 st may e (kept_put t r.1 v out) in
      record {
        later = l;
        is_settled =
            ap (has step.id)
              (eq ∙ ap (λ b. if b then step.id ∷ settled_by t else settled_by t) good)
            ∙ ground (arith, eq_refl step.id);
        has_result =
            ap (contains step.id) out ∙ ground (arith, get-put_self step.id v t.step_outputs);
      }

  -- The retries of a step, from a state in which it may start
  pub retried :
      (cancelled : ℕ → Bool) (t : RunState)
      → May m step.id s t
      → Ends
          (settings_of step)
          (execute_step o run_id step)
          cancelled
          (May m step.id s)
          (Finished m step.id s)
          (execute_with_retry o run_id step cancelled t)
  unfolding execute_with_retry
  retried cancelled t may =
      execute_in-Ends (settings_of step) (execute_step o run_id step) cancelled (May m step.id s)
        (Finished m step.id s)
        (λ n u a p e.
          Change-Finished n u (execute_step o run_id step n u) p
            (execute_step-Effect o run_id step n u) e)
        (λ n u text p e.
          Change-May n u text (execute_step o run_id step n u) p
            (execute_step-Effect o run_id step n u) e)
        t may
