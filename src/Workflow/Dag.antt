-- ===== src/Workflow/Dag.antt =====
-- sccsos/core/workflow/dag.py: `DAGResolver`, which checks the steps of a workflow and sorts them
-- into layers by Kahn's algorithm. A set of ids is a list; a dict is a `Dict`.
pub mod Maps
pub mod Release
pub mod Order
pub mod Coverage
pub mod Search
pub mod Validate
pub mod Conflicts
mod Examples
use sccsos.Prelude.{
  ℕ, zero, suc, String, Bool, true, false, not, ◌&&◌, Option, none, some, List, [], ◌∷◌, ◌++◌,
  length, has, every, keep, str_eq, ltb, ◌==◌, if◌then◌else◌,
}
use sccsos.Prelude.Dict.{Dict, get, put, keys}
use sccsos.Prelude.Result.{Result, ok, err, ◌>>=◌, ◌>>◌}
use sccsos.Workflow.Definition.{
  WorkflowStepDef, ResolveError, no_steps, id_conflict, unknown_dependency, cycle, cannot_schedule,
  key_error, recursion_error, ids,
}

-- `{s.id: s for s in workflow.steps}`, over the dict of the steps read so far
map_from : Dict WorkflowStepDef → List WorkflowStepDef → Dict WorkflowStepDef
map_from m [] = m
map_from m (s ∷ ss) = map_from (put s.id s m) ss

unfoldable pub step_map : List WorkflowStepDef → Dict WorkflowStepDef
unfolding map_from
step_map steps = map_from [] steps

abbrev pub is_some {ℓ} : {A : Type ℓ} → Option A → Bool
is_some none = false
is_some (some _) = true

-- `key in m`
abbrev pub contains {ℓ} : {V : Type ℓ} → String → Dict V → Bool
contains k m = is_some (get k m)

check_deps : Dict WorkflowStepDef → String → List String → Result ResolveError (Unit {0})
check_deps m id [] = ok tt
check_deps m id (dep ∷ deps) =
    if contains dep m then check_deps m id deps else err (unknown_dependency id dep)

check_steps : Dict WorkflowStepDef → List WorkflowStepDef → Result ResolveError (Unit {0})
unfolding check_deps
check_steps m [] = ok tt
check_steps m (s ∷ ss) =
    let rest = check_deps m s.id s.depends_on >> check_steps m ss in
    if contains s.id m then rest else err (id_conflict s.id)

-- The two sets that `_dfs` shares between its calls.
pub record Marks : Type 0 where
  pub visited : List String
  pub rec_stack : List String

abbrev pub without : String → List String → List String
without k = keep (λ j. not (str_eq j k))

-- `for dep in step.depends_on: _dfs(dep)`, over the call `visit`
unfoldable pub visit_each :
    (String → Marks → Result ResolveError Marks) → List String → Marks → Result ResolveError Marks
visit_each visit [] st = ok st
visit_each visit (n ∷ ns) st = visit n st >>= visit_each visit ns

-- `step = self._step_map[node]`, then the loop over its dependencies
unfoldable pub visit_step :
    (String → Marks → Result ResolveError Marks)
    → String
    → Option WorkflowStepDef
    → Marks
    → Result ResolveError Marks
unfolding visit_each
visit_step visit node none st = err (key_error node)
visit_step visit node (some step) st = visit_each visit step.depends_on st

-- `rec_stack.remove(node)`
unfoldable pub leave : String → Marks → Result ResolveError Marks
leave node st = ok (record st { rec_stack = without node st.rec_stack })

-- `_dfs`; the first argument is how deep Python's stack allows the calls to go.
unfoldable pub dfs : ℕ → Dict WorkflowStepDef → String → Marks → Result ResolveError Marks
unfolding visit_step leave
dfs zero m node st = err recursion_error
dfs (suc depth) m node st =
    let entered : Marks = record { visited = node ∷ st.visited; rec_stack = node ∷ st.rec_stack } in
    let inner = visit_step (dfs depth m) node (get node m) entered >>= leave node in
    if has node st.rec_stack then err (cycle node) else if has node st.visited then ok st else inner

abbrev pub unmarked : Marks
unmarked = record { visited = []; rec_stack = [] }

-- `_validate`
unfoldable pub validate : ℕ → List WorkflowStepDef → Result ResolveError (Unit {0})
unfolding check_steps step_map dfs
validate depth [] = err no_steps
validate depth (s ∷ ss) = do
  check_steps (step_map (s ∷ ss)) (s ∷ ss)
  visit_each (dfs depth (step_map (s ∷ ss))) (ids (s ∷ ss)) unmarked
  ok tt

-- `{s.id: len(s.depends_on) for s in steps}`
degrees_from : Dict ℕ → List WorkflowStepDef → Dict ℕ
degrees_from d [] = d
degrees_from d (s ∷ ss) = degrees_from (put s.id (length s.depends_on) d) ss

unfoldable pub in_degrees : List WorkflowStepDef → Dict ℕ
unfolding degrees_from
in_degrees steps = degrees_from [] steps

-- `[sid for sid, deg in in_degree.items() if deg == 0]`
pub zero_degree : Dict ℕ → List String
zero_degree [] = []
zero_degree ((k, n) ∷ d) = let rest = zero_degree d in if n == 0 then k ∷ rest else rest

-- `s.id in in_degree and in_degree[s.id] > 0`
abbrev pub is_pos : Option ℕ → Bool
is_pos none = false
is_pos (some n) = ltb 0 n

abbrev pub is_waiting : String → Dict ℕ → Bool
is_waiting k d = is_pos (get k d)

-- The `for` loop over the steps: those that wait and have all their dependencies in `scheduled`
-- are queued.
unfoldable pub release :
    List String → List WorkflowStepDef → Dict ℕ → List String → Dict ℕ × List String
release scheduled [] deg queue = (deg, queue)
release scheduled (s ∷ ss) deg queue =
    let taken = release scheduled ss (put s.id 0 deg) (queue ++ s.id ∷ []) in
    let left = release scheduled ss deg queue in
    if is_waiting s.id deg && every (λ dep. has dep scheduled) s.depends_on then taken else left

-- `{i for layer in layers for i in layer}`
abbrev pub scheduled_in : List (List String) → List String
scheduled_in [] = []
scheduled_in (l ∷ ls) = l ++ scheduled_in ls

-- `while queue:`, on fuel: one layer is the whole queue. `none` is fuel that ran out.
unfoldable pub layer_loop :
    ℕ
    → List WorkflowStepDef
    → Dict ℕ
    → List String
    → List (List String)
    → Option (List (List String))
unfolding release
layer_loop fuel steps deg [] layers = some layers
layer_loop zero steps deg (q ∷ qs) layers = none
layer_loop (suc fuel) steps deg (q ∷ qs) layers =
    let layers' = layers ++ (q ∷ qs) ∷ [] in
    let (deg', queue') = release (scheduled_in layers') steps deg [] in
    layer_loop fuel steps deg' queue' layers'

-- `set(self._step_map.keys()) - scheduled` and the test that it is empty
unscheduled : List WorkflowStepDef → List (List String) → List String
unscheduled steps layers = keep (λ k. not (has k (scheduled_in layers))) (keys (step_map steps))

all_scheduled : List String → List (List String) → Result ResolveError (List (List String))
all_scheduled [] layers = ok layers
all_scheduled (k ∷ ks) layers = err (cannot_schedule (k ∷ ks))

finish_order :
    List WorkflowStepDef
    → Option (List (List String))
    → Option (Result ResolveError (List (List String)))
unfolding all_scheduled unscheduled
finish_order steps none = none
finish_order steps (some layers) = some (all_scheduled (unscheduled steps layers) layers)

-- `get_execution_order`; a fuel of one round for each step is enough.
unfoldable pub get_execution_order :
    List WorkflowStepDef → Option (Result ResolveError (List (List String)))
unfolding in_degrees zero_degree layer_loop finish_order step_map
get_execution_order steps =
    let deg = in_degrees steps in
    finish_order steps (layer_loop (length steps) steps deg (zero_degree deg) [])

found : String → Option WorkflowStepDef → Result ResolveError WorkflowStepDef
found id none = err (key_error id)
found id (some s) = ok s

unfoldable pub get_step : List WorkflowStepDef → String → Result ResolveError WorkflowStepDef
unfolding found step_map
get_step steps id = found id (get id (step_map steps))
