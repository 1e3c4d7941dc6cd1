-- ===== src/Workflow/Dag/Order.antt =====
-- `get_execution_order`: the end of its loop, and the layers that it returns.
use mathlib.Core.List.{append_assoc, append-nil}
use sccsos.Prelude.{
  ℕ, zero, suc, ◌+◌, ◌≤◌, String, ◌≡◌, refl, ap, sym, Bool, true, false, not, inl, inr, some, List,
  [], ◌∷◌, ◌++◌, length, has, every, arith, Option-cases, subst,
}
use sccsos.Prelude.Dict.{Dict, get, keys}
use sccsos.Prelude.Result.{Result, ok}
use sccsos.Prelude.Sets.{count, count-append, bit, Unique, count_of_has, has-keep, every_of}
use sccsos.Workflow.Definition.{WorkflowStepDef, ids, ResolveError}
use sccsos.Workflow.Dag.{
  release, is_waiting, zero_degree, layer_loop, scheduled_in, step_map, in_degrees,
  get_execution_order, all_scheduled, unscheduled,
}
use sccsos.Workflow.Dag.Maps.{
  Holds, step_map-Holds, count-start, get-in_degrees, contains-step_map, has-keys-step_map,
  length-in_degrees,
}
use sccsos.Workflow.Dag.Release.{
  waiting, waiting-zero_degree, waiting-release, count-release, Settled, release-Settled, deps_met,
  release_met,
}

scheduled_in-append :
    (ls : List (List String)) (l : List String) → scheduled_in (ls ++ l ∷ []) ≡ scheduled_in ls ++ l
scheduled_in-append [] l = append-nil l
scheduled_in-append (x ∷ ls) l =
    rw (scheduled_in-append ls l) (sym (append_assoc x (scheduled_in ls) l))

-- Each member of a layer has its dependencies in the layers before it and in `prior`.
abbrev pub IsLayered : Dict WorkflowStepDef → List String → List (List String) → Type 0
IsLayered m prior [] = Unit
IsLayered m prior (l ∷ ls) = (every (deps_met m prior) l ≡ true) × IsLayered m (prior ++ l) ls

IsLayered-append :
    (m : Dict WorkflowStepDef) (prior : List String) (ls : List (List String)) (l : List String)
    → IsLayered m prior ls
    → every (deps_met m (prior ++ scheduled_in ls)) l ≡ true
    → IsLayered m prior (ls ++ l ∷ [])
IsLayered-append m prior [] l h e = (rw append-nil at e, tt)
IsLayered-append m prior (x ∷ ls) l h e =
    (h.0, IsLayered-append m (prior ++ x) ls l h.1 (rw (append_assoc prior x (scheduled_in ls)) e))

-- The loop ends within a fuel of the steps that wait or are queued.
pub layer_loop_total :
    (fuel : ℕ) (ss : List WorkflowStepDef) (d : Dict ℕ) (q : List String) (ls : List (List String))
    → waiting d + length q ≤ fuel
    → (out : List (List String)) × (layer_loop fuel ss d q ls ≡ some out)
unfolding layer_loop
layer_loop_total fuel ss d [] ls h = (ls, refl)
layer_loop_total zero ss d (x ∷ q) ls h = absurd (omega arith)
layer_loop_total (suc fuel) ss d (x ∷ q) ls h =
    let ls' = ls ++ (x ∷ q) ∷ [] in
    let (d', q') = release (scheduled_in ls') ss d [] in
    layer_loop_total fuel ss d' q' ls' (omega (arith, waiting-release (scheduled_in ls') ss d []))

-- What holds at the head of the loop, for every workflow.
pub record Counted (ss : List WorkflowStepDef) (d : Dict ℕ) (q : List String)
    (ls : List (List String)) : Type 0 where
  pub counts :
      (k : String)
      → count k (scheduled_in ls) + (count k q + bit (is_waiting k d)) ≡ bit (has k (ids ss))
  pub settled : Unique (ids ss) → Settled (scheduled_in ls) d ss

Counted-round :
    (ss : List WorkflowStepDef) (d : Dict ℕ) (q : List String) (ls : List (List String))
    → Counted ss d q ls
    → let (d', q') = release (scheduled_in (ls ++ q ∷ [])) ss d [] in
      Counted ss d' q' (ls ++ q ∷ [])
Counted-round ss d q ls c = record {
  counts = λ k. omega (
    arith,
    c.counts k,
    count-release (scheduled_in (ls ++ q ∷ [])) k ss d [],
    count-append k (scheduled_in ls) q,
    ap (count k) (scheduled_in-append ls q),
  );
  settled = λ _. release-Settled (scheduled_in (ls ++ q ∷ [])) ss d [];
}

-- What holds when the loop has ended.
pub record Ended (ss : List WorkflowStepDef) (ls : List (List String)) : Type 0 where
  pub last : Dict ℕ
  pub counted : Counted ss last [] ls

pub layer_loop-Ended :
    (fuel : ℕ) (ss : List WorkflowStepDef) (d : Dict ℕ) (q : List String)
    (ls out : List (List String))
    → Counted ss d q ls
    → layer_loop fuel ss d q ls ≡ some out
    → Ended ss out
unfolding layer_loop
layer_loop-Ended fuel ss d [] ls out c e =
    subst (Ended ss) (ground arith) (record { last = d; counted = c })
layer_loop-Ended zero ss d (x ∷ q) ls out c e = cc
layer_loop-Ended (suc fuel) ss d (x ∷ q) ls out c e =
    let ls' = ls ++ (x ∷ q) ∷ [] in
    let (d', q') = release (scheduled_in ls') ss d [] in
    layer_loop-Ended fuel ss d' q' ls' out (Counted-round ss d (x ∷ q) ls c) e

-- Where ids are unique, the layers and the queue are in order.
layer_loop-IsLayered :
    (m : Dict WorkflowStepDef) (fuel : ℕ) (ss : List WorkflowStepDef) (d : Dict ℕ) (q : List String)
    (ls out : List (List String))
    → Holds m ss
    → IsLayered m [] ls
    → every (deps_met m (scheduled_in ls)) q ≡ true
    → layer_loop fuel ss d q ls ≡ some out
    → IsLayered m [] out
unfolding layer_loop
layer_loop-IsLayered m fuel ss d [] ls out h l met e = subst (IsLayered m []) (ground arith) l
layer_loop-IsLayered m zero ss d (x ∷ q) ls out h l met e = cc
layer_loop-IsLayered m (suc fuel) ss d (x ∷ q) ls out h l met e =
    let ls' = ls ++ (x ∷ q) ∷ [] in
    let (d', q') = release (scheduled_in ls') ss d [] in
    layer_loop-IsLayered m fuel ss d' q' ls' out h (IsLayered-append m [] ls (x ∷ q) l met)
      (release_met m (scheduled_in ls') ss d [] h refl) e

no_dependency : (xs : List String) → every (λ dep. has dep []) xs ≡ true → length xs ≡ 0
no_dependency [] h = refl
no_dependency (x ∷ xs) h = cc

start_not_waiting :
    (all : List WorkflowStepDef) (s : WorkflowStepDef)
    → get s.id (step_map all) ≡ some s
    → every (λ dep. has dep []) s.depends_on ≡ true
    → is_waiting s.id (in_degrees all) ≡ false
start_not_waiting all s h met =
    ground (arith, get-in_degrees s.id all, no_dependency s.depends_on met)

start-Settled :
    (all ss : List WorkflowStepDef) → Holds (step_map all) ss → Settled [] (in_degrees all) ss
start-Settled all [] h = tt
start-Settled all (s ∷ ss) h = (start_not_waiting all s h.0, start-Settled all ss h.1)

pub start-Counted :
    (ss : List WorkflowStepDef) → Counted ss (in_degrees ss) (zero_degree (in_degrees ss)) []
start-Counted ss = record {
  counts = λ k. omega (arith, count-start k ss);
  settled = λ u. start-Settled ss ss (step_map-Holds ss u);
}

every_of_empty : (p : String → Bool) (xs : List String) → length xs ≡ 0 → every p xs ≡ true
every_of_empty p [] h = refl
every_of_empty p (x ∷ xs) h = absurd (omega arith)

-- The steps queued at the start have no dependencies.
start_met_of :
    (prior : List String) (ss : List WorkflowStepDef) (k : String)
    → has k (zero_degree (in_degrees ss)) ≡ true
    → deps_met (step_map ss) prior k ≡ true
start_met_of prior ss k h = elim (Option-cases (get k (step_map ss))) [
  | inl gone ↦ ground (
    arith,
    count-start k ss,
    count_of_has k (zero_degree (in_degrees ss)) h,
    contains-step_map k ss,
  )
  | inr (s, e) ↦ rw e (
      every_of_empty (λ dep. has dep prior) s.depends_on
        (ground (
          arith,
          count-start k ss,
          count_of_has k (zero_degree (in_degrees ss)) h,
          get-in_degrees k ss,
        )))
]

start_met :
    (ss : List WorkflowStepDef)
    → every (deps_met (step_map ss) []) (zero_degree (in_degrees ss)) ≡ true
start_met ss =
    every_of (deps_met (step_map ss) []) (zero_degree (in_degrees ss)) (start_met_of [] ss)

-- `get_execution_order` ends for every list of steps: its loop makes at most one round a step.
pub get_execution_order_total :
    (ss : List WorkflowStepDef)
    → (r : Result ResolveError (List (List String))) × (get_execution_order ss ≡ some r)
unfolding get_execution_order
get_execution_order_total ss =
    let (out, e) =
      layer_loop_total (length ss) ss (in_degrees ss) (zero_degree (in_degrees ss)) []
        (omega (arith, waiting-zero_degree (in_degrees ss), length-in_degrees ss)) in
    (all_scheduled (unscheduled ss out) out, rw e)

-- The layers that `get_execution_order` returns are those of the loop, and leave out no step.
record Returned (ss : List WorkflowStepDef) (layers : List (List String)) : Type 0 where
  looped : layer_loop (length ss) ss (in_degrees ss) (zero_degree (in_degrees ss)) [] ≡ some layers
  complete : unscheduled ss layers ≡ []

all_scheduled_ok :
    (left : List String) (out layers : List (List String))
    → all_scheduled left out ≡ ok layers
    → (left ≡ []) × (out ≡ layers)
unfolding all_scheduled
all_scheduled_ok [] out layers e = (refl, ground arith)
all_scheduled_ok (k ∷ ks) out layers e = cc

order-Returned :
    (ss : List WorkflowStepDef) (layers : List (List String))
    → get_execution_order ss ≡ some (ok layers)
    → Returned ss layers
unfolding get_execution_order
order-Returned ss layers e =
    let (out, l) =
      layer_loop_total (length ss) ss (in_degrees ss) (zero_degree (in_degrees ss)) []
        (omega (arith, waiting-zero_degree (in_degrees ss), length-in_degrees ss)) in
    let kept : all_scheduled (unscheduled ss out) out ≡ ok layers = ground (arith, l) in
    let (none_left, same) = all_scheduled_ok (unscheduled ss out) out layers kept in
    subst (Returned ss) same (record { looped = l; complete = none_left })

not_left :
    (ss : List WorkflowStepDef) (layers : List (List String)) (k : String)
    → unscheduled ss layers ≡ []
    → has k (ids ss) ≡ true
    → has k (scheduled_in layers) ≡ true
unfolding unscheduled
not_left ss layers k e h = ground (
  arith,
  ap (has k) e,
  has-keep k (λ j. not (has j (scheduled_in layers))) (keys (step_map ss)),
  has-keys-step_map k ss,
)

-- In the layers that `get_execution_order` returns, every id of a step stands exactly once, and no
-- other id stands there, also where two steps share an id.
pub order_schedules_once :
    (ss : List WorkflowStepDef) (layers : List (List String))
    → get_execution_order ss ≡ some (ok layers)
    → (k : String) → count k (scheduled_in layers) ≡ bit (has k (ids ss))
order_schedules_once ss layers e k =
    let r = order-Returned ss layers e in
    let done =
      layer_loop-Ended (length ss) ss (in_degrees ss) (zero_degree (in_degrees ss)) [] layers
        (start-Counted ss) r.looped in
    ground (
      arith,
      done.counted.counts k,
      not_left ss layers k r.complete,
      count_of_has k (scheduled_in layers),
    )

-- Where the ids of the steps are unique, each step stands in a layer behind the layers that hold
-- its dependencies.
pub order-IsLayered :
    (ss : List WorkflowStepDef) (layers : List (List String))
    → Unique (ids ss)
    → get_execution_order ss ≡ some (ok layers)
    → IsLayered (step_map ss) [] layers
order-IsLayered ss layers u e =
    layer_loop-IsLayered (step_map ss) (length ss) ss (in_degrees ss) (zero_degree (in_degrees ss))
      [] layers (step_map-Holds ss u) tt (start_met ss) (order-Returned ss layers e).looped
