-- ===== src/Workflow/Engine/Layers.antt =====
-- The layers of a run: the order in which steps start, and what is there when all of them ended well.
use sccsos.Prelude.{
  ℕ, zero, suc, ◌+◌, String, ◌≡◌, refl, true, Option, none, some, List, [], ◌∷◌, ◌++◌, has,
  has-append, ◌==◌, every, arith, inl, inr, Bool-cases, eq_refl,
}
use sccsos.Prelude.Dict.{Dict}
use sccsos.Prelude.Result.{Result, ok, err}
use sccsos.Prelude.Sets.{Included, every_at}
use sccsos.Workflow.Definition.{WorkflowStepDef}
use sccsos.Workflow.Dag.{scheduled_in}
use sccsos.Workflow.Dag.Release.{deps_met}
use sccsos.Workflow.Dag.Order.{IsLayered}
use sccsos.Workflow.Dag.Coverage.{deps_met_mono}
use sccsos.Workflow.Steps.{RunState}
use sccsos.Workflow.Steps.Trace.{IsInOrder, settled_by, has_output, Later}
use sccsos.Workflow.Engine.{
  Cause, Plan, StepCall, run_rest, run_all, run_tasks, after_task, submitted,
  execute_layer_parallel, execute_layer, execute_layers, and_then_layers,
}

-- The order and the cancelled tasks of a layer's plan are tasks of the layer, and none is forgotten.
pub record IsPlan (layer : List String) (plan : Plan) : Type 0 where
  pub within : Included (plan.order) layer
  pub whole : Included layer (plan.order)
  pub stopped_within : (ran : List String) → plan.stopped ≡ some ran → Included ran layer

abbrev pub ArePlans : (ℕ → Plan) → ℕ → List (List String) → Type 0
ArePlans plans i [] = Unit
ArePlans plans i (l ∷ ls) = IsPlan l (plans i) × ArePlans plans (i + 1) ls

abbrev pub IsDone : RunState → List String → Type 0
IsDone u ks =
    (k : String) → has k ks ≡ true → (has k (settled_by u) ≡ true) × (has_output k u ≡ true)

abbrev pub AllMet : Dict WorkflowStepDef → RunState → List String → Type 0
AllMet m t ks = (k : String) → has k ks ≡ true → deps_met m (settled_by t) k ≡ true

-- How calls for some steps end: later, and with all of them done if none failed.
abbrev pub Ran :
    Dict WorkflowStepDef → List String → RunState → Result Cause (Unit {0}) × RunState → Type 0
Ran m ks t (ok _, u) = Later m t u × IsDone u ks
Ran m ks t (err _, u) = Later m t u

pub Later-refl : (m : Dict WorkflowStepDef) (t : RunState) → IsInOrder m [] t.spans → Later m t t
Later-refl m t o = record { in_order = o; settled_still = λ k h. h; outputs_still = λ k h. h }

Later-trans :
    (m : Dict WorkflowStepDef) (s t u : RunState) → Later m s t → Later m t u → Later m s u
Later-trans m s t u l k = record {
  in_order = k.in_order;
  settled_still = λ j h. k.settled_still j (l.settled_still j h);
  outputs_still = λ j h. k.outputs_still j (l.outputs_still j h);
}

module _ (m : Dict WorkflowStepDef) (call : StepCall)
    (good : (k : String) (t : RunState)
      → IsInOrder m [] t.spans
      → deps_met m (settled_by t) k ≡ true
      → Ran m (k ∷ []) t (call k t)) where
  still_met : (s t : RunState) (ks : List String) → Later m s t → AllMet m s ks → AllMet m t ks
  still_met s t ks l h k e = deps_met_mono m (settled_by s) (settled_by t) k l.settled_still (h k e)

  Ran-Later :
      (ks : List String) (t : RunState) (r : Result Cause (Unit {0}) × RunState)
      → Ran m ks t r
      → Later m t r.1
  Ran-Later ks t (ok _, u) h = h.0
  Ran-Later ks t (err _, u) h = h

  tail_met : (t : RunState) (k : String) (ks : List String) → AllMet m t (k ∷ ks) → AllMet m t ks
  tail_met t k ks h j e = h j (ground (arith, e))

  head_met :
      (t : RunState) (k : String) (ks : List String)
      → AllMet m t (k ∷ ks)
      → deps_met m (settled_by t) k ≡ true
  head_met t k ks h = h k (ground (arith, eq_refl k))

  run_rest-Later :
      (n : ℕ) (ks : List String) (t : RunState)
      → IsInOrder m [] t.spans
      → AllMet m t ks
      → Later m t (run_rest call n ks t)
  unfolding run_rest
  run_rest-Later zero ks t o h = Later-refl m t o
  run_rest-Later (suc n) [] t o h = Later-refl m t o
  run_rest-Later (suc n) (k ∷ ks) t o h =
      let l = Ran-Later (k ∷ []) t (call k t) (good k t o (head_met t k ks h)) in
      Later-trans m t (call k t).1 (run_rest call n ks (call k t).1) l (
        run_rest-Later n ks (call k t).1 l.in_order
          (still_met t (call k t).1 ks l (tail_met t k ks h)))

  run_all-Later :
      (ks : List String) (t : RunState)
      → IsInOrder m [] t.spans
      → AllMet m t ks
      → Later m t (run_all call ks t)
  run_all-Later [] t o h = Later-refl m t o
  run_all-Later (k ∷ ks) t o h =
      let l = Ran-Later (k ∷ []) t (call k t) (good k t o (head_met t k ks h)) in
      Later-trans m t (call k t).1 (run_all call ks (call k t).1) l (
        run_all-Later ks (call k t).1 l.in_order
          (still_met t (call k t).1 ks l (tail_met t k ks h)))

  -- What is done stays done.
  IsDone-append :
      (t u v : RunState) (xs ys : List String)
      → Later m u v
      → IsDone u xs
      → IsDone v ys
      → IsDone v (xs ++ ys)
  IsDone-append t u v xs ys l d e k h = elim (Bool-cases (has k xs)) [
    | inl left ↦ let (a, b) = d k left in (l.settled_still k a, l.outputs_still k b)
    | inr off ↦ e k (ground (arith, has-append k xs ys, h, off))
  ]

  -- One after the other: the first ended well, and the rest goes on from there.
  Ran-then :
      (xs ys : List String) (t u : RunState) (r : Result Cause (Unit {0}) × RunState)
      → Later m t u × IsDone u xs
      → Ran m ys u r
      → Ran m (xs ++ ys) t r
  Ran-then xs ys t u (ok _, v) (l, d) (k, e) =
      (Later-trans m t u v l k, IsDone-append t u v xs ys k d e)
  Ran-then xs ys t u (err _, v) (l, d) k = Later-trans m t u v l k

  after-Ran :
      (late : ℕ) (k : String) (ks : List String) (t : RunState)
      (r : Result Cause (Unit {0}) × RunState)
      → AllMet m t (k ∷ ks)
      → Ran m (k ∷ []) t r
      → ((u : RunState)
          → IsInOrder m [] u.spans
          → AllMet m u ks
          → Ran m ks u (run_tasks call late ks u))
      → Ran m (k ∷ ks) t (after_task call late k ks r (λ u. run_tasks call late ks u))
  after-Ran late k ks t (ok _, u) h (l, d) more =
      Ran-then (k ∷ []) ks t u (run_tasks call late ks u) (l, d)
        (more u l.in_order (still_met t u ks l (tail_met t k ks h)))
  after-Ran late k ks t (err x, u) h l more =
      Later-trans m t u (run_rest call late ks u) l
        (run_rest-Later late ks u l.in_order (still_met t u ks l (tail_met t k ks h)))

  run_tasks-Ran :
      (late : ℕ) (ks : List String) (t : RunState)
      → IsInOrder m [] t.spans
      → AllMet m t ks
      → Ran m ks t (run_tasks call late ks t)
  unfolding run_tasks
  run_tasks-Ran late [] t o h = (Later-refl m t o, λ k e. absurd (cc))
  run_tasks-Ran late (k ∷ ks) t o h =
      after-Ran late k ks t (call k t) h (good k t o (head_met t k ks h))
        (λ u o' h'. run_tasks-Ran late ks u o' h')

  -- A layer, whatever its plan makes of it
  AllMet-within :
      (t : RunState) (xs ys : List String) → Included xs ys → AllMet m t ys → AllMet m t xs
  AllMet-within t xs ys sub h k e = h k (sub k e)

  Ran-within :
      (xs ys : List String) (t : RunState) (r : Result Cause (Unit {0}) × RunState)
      → Included ys xs
      → Ran m xs t r
      → Ran m ys t r
  Ran-within xs ys t (ok _, u) sub (l, d) = (l, λ k e. d k (sub k e))
  Ran-within xs ys t (err _, u) sub l = l

  submitted-Ran :
      (plan : Plan) (layer : List String) (t : RunState) (ran : Option (List String))
      → IsPlan layer plan
      → plan.stopped ≡ ran
      → IsInOrder m [] t.spans
      → AllMet m t layer
      → Ran m layer t (submitted call plan ran t)
  submitted-Ran plan layer t none p e o h =
      Ran-within plan.order layer t (run_tasks call plan.late plan.order t) p.whole
        (run_tasks-Ran plan.late plan.order t o (AllMet-within t plan.order layer p.within h))
  submitted-Ran plan layer t (some ran) p e o h =
      run_all-Later ran t o (AllMet-within t ran layer (p.stopped_within ran e) h)

  execute_layer_parallel-Ran :
      (plan : Plan) (layer : List String) (t : RunState)
      → IsPlan layer plan
      → IsInOrder m [] t.spans
      → AllMet m t layer
      → Ran m layer t (execute_layer_parallel call plan t)
  unfolding execute_layer_parallel
  execute_layer_parallel-Ran plan layer t p o h = elim (Bool-cases plan.cancelled) [
    | inl on ↦ rw on (Later-refl m t o)
    | inr off ↦ rw off (elim (Bool-cases (plan.max_workers == 0)) [
      | inl empty ↦ rw empty (Later-refl m t o)
      | inr some_there ↦ rw some_there (submitted-Ran plan layer t plan.stopped p refl o h)
    ])
  ]

  execute_layer-Ran :
      (plan : Plan) (layer : List String) (t : RunState)
      → IsPlan layer plan
      → IsInOrder m [] t.spans
      → AllMet m t layer
      → Ran m layer t (execute_layer call plan layer t)
  unfolding execute_layer
  execute_layer-Ran plan [] t p o h = execute_layer_parallel-Ran plan [] t p o h
  execute_layer-Ran plan (k ∷ []) t p o h = good k t o (head_met t k [] h)
  execute_layer-Ran plan (k ∷ j ∷ ks) t p o h = execute_layer_parallel-Ran plan (k ∷ j ∷ ks) t p o h

  layer_met :
      (t : RunState) (prior layer : List String)
      → Included prior (settled_by t)
      → every (deps_met m prior) layer ≡ true
      → AllMet m t layer
  layer_met t prior layer sub h k e =
      deps_met_mono m prior (settled_by t) k sub (every_at (deps_met m prior) layer k h e)

  and_then_layers-Ran :
      (xs ys : List String) (t : RunState) (r : Result Cause (Unit {0}) × RunState)
      (more : RunState → Result Cause (Unit {0}) × RunState)
      → Ran m xs t r
      → ((u : RunState) → Later m t u → IsDone u xs → Ran m ys u (more u))
      → Ran m (xs ++ ys) t (and_then_layers r more)
  and_then_layers-Ran xs ys t (ok _, u) more (l, d) go =
      Ran-then xs ys t u (more u) (l, d) (go u l d)
  and_then_layers-Ran xs ys t (err _, u) more l go = l

  next_prior :
      (t u : RunState) (prior layer : List String)
      → Included prior (settled_by t)
      → Later m t u
      → IsDone u layer
      → Included (prior ++ layer) (settled_by u)
  next_prior t u prior layer sub l d k e = elim (Bool-cases (has k prior)) [
    | inl old ↦ l.settled_still k (sub k old)
    | inr new ↦ (d k (ground (arith, has-append k prior layer, e, new))).0
  ]

  pub execute_layers-Ran :
      (plans : ℕ → Plan) (i : ℕ) (prior : List String) (ls : List (List String)) (t : RunState)
      → ArePlans plans i ls
      → Included prior (settled_by t)
      → IsLayered m prior ls
      → IsInOrder m [] t.spans
      → Ran m (scheduled_in ls) t (execute_layers call plans i ls t)
  unfolding execute_layers
  execute_layers-Ran plans i prior [] t p sub h o = (Later-refl m t o, λ k e. absurd (cc))
  execute_layers-Ran plans i prior (l ∷ ls) t p sub h o =
      and_then_layers-Ran l (scheduled_in ls) t (execute_layer call (plans i) l t)
        (λ u. execute_layers call plans (i + 1) ls u)
        (execute_layer-Ran (plans i) l t p.0 o (layer_met t prior l sub h.0))
        (λ u k d.
          execute_layers-Ran plans (i + 1) (prior ++ l) ls u p.1 (next_prior t u prior l sub k d)
            h.1 k.in_order)
