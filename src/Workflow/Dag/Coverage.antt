-- ===== src/Workflow/Dag/Coverage.antt =====
-- Steps that can be put in an order: the loop of `get_execution_order` leaves none of them out.
use sccsos.Prelude.{
  String, ◌≡◌, ap, true, false, not, inl, inr, some, List, [], ◌∷◌, length, has, every, arith,
  eq_iff, Option-cases,
}
use sccsos.Prelude.Dict.{Dict, get, keys}
use sccsos.Prelude.Result.{ok}
use sccsos.Prelude.Sets.{Unique, has_of_count, has-keep, empty_of_has_none, every_mono, Included}
use sccsos.Workflow.Definition.{WorkflowStepDef, ids}
use sccsos.Workflow.Dag.{
  is_waiting, zero_degree, scheduled_in, step_map, in_degrees, get_execution_order, all_scheduled,
  unscheduled,
}
use sccsos.Workflow.Dag.Maps.{step_map_at, contains-step_map, has-keys-step_map, length-in_degrees}
use sccsos.Workflow.Dag.Release.{waiting-zero_degree, deps_met}
use sccsos.Workflow.Dag.Order.{layer_loop_total, Ended, layer_loop-Ended, start-Counted}

pub deps_met_mono :
    (m : Dict WorkflowStepDef) (xs ys : List String) (k : String)
    → Included xs ys
    → deps_met m xs k ≡ true
    → deps_met m ys k ≡ true
deps_met_mono m xs ys k sub h = elim (Option-cases (get k m)) [
  | inl gone ↦ ground (arith, gone)
  | inr (s, e) ↦
      rw e (every_mono (λ dep. has dep xs) (λ dep. has dep ys) s.depends_on sub (ground (arith, e)))
]

-- Each id has its dependencies among the ids behind it.
abbrev pub IsOrdered : Dict WorkflowStepDef → List String → Type 0
IsOrdered m [] = Unit
IsOrdered m (k ∷ ks) = (deps_met m ks k ≡ true) × IsOrdered m ks

module _ (ss : List WorkflowStepDef) (u : Unique (ids ss)) (layers : List (List String))
    (done : Ended ss layers) where
  -- Once the loop has ended, a step with its dependencies scheduled is scheduled.
  closed :
      (k : String)
      → deps_met (step_map ss) (scheduled_in layers) k ≡ true
      → has k (scheduled_in layers) ≡ true
  closed k h = elim (Option-cases (get k (step_map ss))) [
    | inl gone ↦ ground (arith, gone)
    | inr (s, e) ↦
        let (rest, same) =
          step_map_at
            (λ t.
              every (λ dep. has dep (scheduled_in layers)) t.depends_on ≡ true
              → is_waiting t.id done.last ≡ false)
            ss k s (done.counted.settled u) e in
        let idle : is_waiting s.id done.last ≡ false = rest (ground (arith, e)) in
        has_of_count k (scheduled_in layers) (
          ground (
            arith,
            done.counted.counts k,
            contains-step_map k ss,
            e,
            ap (λ j. is_waiting j done.last) same,
            idle,
          ))
  ]

  order_covers : (ks : List String) → IsOrdered (step_map ss) ks → Included ks (scheduled_in layers)
  order_covers [] o k h = cc
  order_covers (j ∷ ks) o k h =
      let below : Included ks (scheduled_in layers) = order_covers ks o.1 in
      ground (
        arith,
        below k,
        closed j (deps_met_mono (step_map ss) ks (scheduled_in layers) j below o.0),
        eq_iff j k,
      )

unscheduled_none :
    (ss : List WorkflowStepDef) (layers : List (List String))
    → Included (ids ss) (scheduled_in layers)
    → unscheduled ss layers ≡ []
unfolding unscheduled
unscheduled_none ss layers all = empty_of_has_none (unscheduled ss layers) λ k. ground (
  arith,
  has-keep k (λ j. not (has j (scheduled_in layers))) (keys (step_map ss)),
  has-keys-step_map k ss,
  all k,
)

-- Steps with unique ids that can be put in an order, dependencies first, are all scheduled.
pub order_of_IsOrdered :
    (ss : List WorkflowStepDef) (ks : List String)
    → Unique (ids ss)
    → IsOrdered (step_map ss) ks
    → Included (ids ss) ks
    → (layers : List (List String)) × (get_execution_order ss ≡ some (ok layers))
unfolding get_execution_order all_scheduled
order_of_IsOrdered ss ks u o all =
    let (out, l) =
      layer_loop_total (length ss) ss (in_degrees ss) (zero_degree (in_degrees ss)) []
        (omega (arith, waiting-zero_degree (in_degrees ss), length-in_degrees ss)) in
    let done =
      layer_loop-Ended (length ss) ss (in_degrees ss) (zero_degree (in_degrees ss)) [] out
        (start-Counted ss) l in
    let left : unscheduled ss out ≡ [] =
      unscheduled_none ss out (λ k h. order_covers ss u out done ks o k (all k h)) in
    (out, rw l (rw left))
