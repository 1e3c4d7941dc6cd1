-- ===== src/Workflow/Dag/Validate.antt =====
-- `_validate`: the workflows that it accepts.
use sccsos.Prelude.{
  ℕ, zero, suc, ◌≤◌, ◌<◌, String, ◌≡◌, ◌≢◌, refl, ap, sym, ◌∙◌, true, false, inl, inr, some, List,
  [], ◌∷◌, All, has, str_eq, arith, eq_iff, eq_refl, Bool-cases, Option-cases, subst,
}
use sccsos.Prelude.Dict.{Dict, get}
use sccsos.Prelude.Result.{Result, ok, ◌>>=◌, Result-cases}
use sccsos.Prelude.Sets.{Included, Unique, every_at}
use sccsos.Workflow.Definition.{WorkflowStepDef, ResolveError, ids}
use sccsos.Workflow.Dag.{
  Marks, unmarked, contains, without, visit_each, visit_step, leave, dfs, validate, check_steps,
  check_deps, step_map, get_execution_order,
}
use sccsos.Workflow.Dag.Maps.{contains-step_map, step_map_at}
use sccsos.Workflow.Dag.Coverage.{order_of_IsOrdered}
use sccsos.Workflow.Dag.Search.{Explored, dfs-Visits, visit_each-Extends, stack-leave, entered}

unmarked-Explored : (m : Dict WorkflowStepDef) → Explored m unmarked []
unmarked-Explored m = record { marked = λ k. refl; ordered = tt }

search_orders :
    (depth : ℕ) (ss : List WorkflowStepDef) (st : Marks)
    → Unique (ids ss)
    → visit_each (dfs depth (step_map ss)) (ids ss) unmarked ≡ ok st
    → (layers : List (List String)) × (get_execution_order ss ≡ some (ok layers))
search_orders depth ss st u e =
    let m = step_map ss in
    let (x, all) =
      visit_each-Extends m (dfs depth m) (dfs-Visits m depth) (ids ss) unmarked st []
        (unmarked-Explored m) e in
    order_of_IsOrdered ss x.finished u x.explored.ordered
      (λ k. every_at (λ n. has n x.finished) (ids ss) k all)

-- A workflow that `_validate` accepts, with unique step ids, is scheduled: `get_execution_order`
-- returns layers and never raises "Cannot schedule steps".
pub validated_order :
    (depth : ℕ) (ss : List WorkflowStepDef)
    → Unique (ids ss)
    → validate depth ss ≡ ok tt
    → (layers : List (List String)) × (get_execution_order ss ≡ some (ok layers))
unfolding validate
validated_order depth [] u e = absurd (ground arith)
validated_order depth (s ∷ ss) u e =
    elim (Result-cases (check_steps (step_map (s ∷ ss)) (s ∷ ss))) [
      | inr (x, bad) ↦ absurd (ground (arith, bad))
      | inl (_, checked) ↦
          elim (Result-cases (visit_each (dfs depth (step_map (s ∷ ss))) (ids (s ∷ ss)) unmarked)) [
            | inr (x, bad) ↦ absurd (ground (arith, checked, bad))
            | inl (st, good) ↦ search_orders depth (s ∷ ss) st u good
          ]
    ]

-- Each step stands above its dependencies, which are steps.
abbrev pub IsRanked : (String → ℕ) → List String → List WorkflowStepDef → Type 0
IsRanked rank known =
    All (λ s. All (λ dep. (rank dep < rank s.id) × (has dep known ≡ true)) s.depends_on)

module _ (rank : String → ℕ) (m : Dict WorkflowStepDef) where
  abbrev Below : List String → ℕ → Type 0
  Below xs n = All (λ dep. (rank dep < n) × (contains dep m ≡ true)) xs

  abbrev Above : ℕ → List String → Type 0
  Above n = All (λ x. n < rank x)

  Above-fresh : (k : String) (xs : List String) → Above (rank k) xs → has k xs ≡ false
  Above-fresh k [] h = refl
  Above-fresh k (x ∷ xs) h = elim (Bool-cases (str_eq x k)) [
    | inl same ↦ absurd (omega (arith, h.0, ap rank ((eq_iff x k).0 same)))
    | inr other ↦ ground (arith, other, Above-fresh k xs h.1)
  ]

  Above-mono : (i j : ℕ) (xs : List String) → i ≤ j → Above j xs → Above i xs
  Above-mono i j [] le h = tt
  Above-mono i j (x ∷ xs) le h = (omega (arith, h.0), Above-mono i j xs le h.1)

  Above-of_lt : (i n : ℕ) (xs : List String) → i < n → All (λ x. n ≤ rank x) xs → Above i xs
  Above-of_lt i n [] lt h = tt
  Above-of_lt i n (x ∷ xs) lt h = (omega (arith, h.0), Above-of_lt i n xs lt h.1)

  le_of_Above : (n : ℕ) (xs : List String) → Above n xs → All (λ x. n ≤ rank x) xs
  le_of_Above n [] h = tt
  le_of_Above n (x ∷ xs) h = (omega (arith, h.0), le_of_Above n xs h.1)

  -- The search from `st` ends well, with the stack that it began with.
  abbrev Ends : Result ResolveError Marks → Marks → Type 0
  Ends r st = (st' : Marks) × (r ≡ ok st') × (st'.rec_stack ≡ st.rec_stack)

  abbrev EndsBelow : (String → Marks → Result ResolveError Marks) → ℕ → Type 0
  EndsBelow visit n =
      (k : String) (st : Marks)
      → rank k < n
      → contains k m ≡ true
      → Above (rank k) st.rec_stack
      → Ends (visit k st) st

  visit_each-Ends :
      (visit : String → Marks → Result ResolveError Marks) (n : ℕ)
      → EndsBelow visit n
      → (ks : List String) (st : Marks) → Below ks n
      → All (λ x. n ≤ rank x) st.rec_stack
      → Ends (visit_each visit ks st) st
  unfolding visit_each
  visit_each-Ends visit n v [] st b a = (st, refl, refl)
  visit_each-Ends visit n v (k ∷ ks) st b a =
      let (mid, e, same) = v k st b.0.0 b.0.1 (Above-of_lt (rank k) n st.rec_stack b.0.0 a) in
      let (last, e', same') =
        visit_each-Ends visit n v ks mid b.1 (subst (All (λ x. n ≤ rank x)) (sym same) a) in
      (last, rw e e', same' ∙ same)

  module _
      (ranked : (k : String) (s : WorkflowStepDef)
        → get k m ≡ some s
        → Below s.depends_on (rank k)) where
    step-Ends :
        (depth : ℕ) (k : String) (st : Marks)
        → EndsBelow (dfs depth m) (rank k)
        → contains k m ≡ true
        → Above (rank k) st.rec_stack
        → Ends (visit_step (dfs depth m) k (get k m) (entered k st) >>= leave k) st
    unfolding visit_step leave
    step-Ends depth k st v c a = elim (Option-cases (get k m)) [
      | inl gone ↦ absurd (ground (arith, gone))
      | inr (s, found) ↦
          let (mid, e, same) =
            visit_each-Ends (dfs depth m) (rank k) v s.depends_on (entered k st) (ranked k s found)
              (omega arith, le_of_Above (rank k) st.rec_stack a) in
          (
            record mid { rec_stack = without k mid.rec_stack },
            rw found (rw e),
            stack-leave m k st mid (Above-fresh k st.rec_stack a) same,
          )
    ]

    dfs-Ends : (depth n : ℕ) → n ≤ depth → EndsBelow (dfs depth m) n
    unfolding dfs
    dfs-Ends zero n le k st h c a = absurd (omega arith)
    dfs-Ends (suc depth) n le k st h c a =
        let (last, e, same) = step-Ends depth k st (dfs-Ends depth (rank k) (omega arith)) c a in
        elim (Bool-cases (has k st.visited)) [
          | inl seen ↦ (st, ground (arith, seen, Above-fresh k st.rec_stack a), refl)
          | inr new ↦ (last, rw (Above-fresh k st.rec_stack a) (rw new e), same)
        ]

module _ (rank : String → ℕ) (known : List String) (m : Dict WorkflowStepDef)
    (same : (k : String) → contains k m ≡ has k known) where
  abbrev BelowKnown : List String → ℕ → Type 0
  BelowKnown xs n = All (λ dep. (rank dep < n) × (has dep known ≡ true)) xs

  Below-of_known : (xs : List String) (i n : ℕ) → i ≤ n → BelowKnown xs i → Below rank m xs n
  Below-of_known [] i n le h = tt
  Below-of_known (x ∷ xs) i n le h =
      ((omega (arith, h.0.0), same x ∙ h.0.1), Below-of_known xs i n le h.1)

  check_deps_ok :
      (id : String) (xs : List String) (n : ℕ) → BelowKnown xs n → check_deps m id xs ≡ ok tt
  unfolding check_deps
  check_deps_ok id [] n h = refl
  check_deps_ok id (x ∷ xs) n h = rw (same x ∙ h.0.1) (check_deps_ok id xs n h.1)

  check_steps_ok :
      (ss : List WorkflowStepDef)
      → Included (ids ss) known
      → IsRanked rank known ss
      → check_steps m ss ≡ ok tt
  unfolding check_steps
  check_steps_ok [] sub r = refl
  check_steps_ok (s ∷ ss) sub r =
      let known_id : contains s.id m ≡ true = same s.id ∙ sub s.id (ground (arith, eq_refl s.id)) in
      let rest = check_steps_ok ss (λ k h. sub k (ground (arith, h))) r.1 in
      rw known_id (rw (check_deps_ok s.id s.depends_on (rank s.id) r.0) rest)

  ids-Below :
      (depth : ℕ) (ss : List WorkflowStepDef)
      → Included (ids ss) known
      → All (λ s. rank s.id < depth) ss
      → Below rank m (ids ss) depth
  ids-Below depth [] sub h = tt
  ids-Below depth (s ∷ ss) sub h = (
    (h.0, same s.id ∙ sub s.id (ground (arith, eq_refl s.id))),
    ids-Below depth ss (λ k e. sub k (ground (arith, e))) h.1,
  )

-- A step that the map gives is ranked above its dependencies under the id that it is found by.
step_map-ranked :
    (rank : String → ℕ) (ss : List WorkflowStepDef)
    → IsRanked rank (ids ss) ss
    → (k : String) (s : WorkflowStepDef) → get k (step_map ss) ≡ some s
    → Below rank (step_map ss) s.depends_on (rank k)
step_map-ranked rank ss r k s found =
    let (known, same) =
      step_map_at
        (λ t.
          BelowKnown rank (ids ss) (step_map ss) (λ j. contains-step_map j ss) t.depends_on
            (rank t.id))
        ss k s r found in
    Below-of_known rank (ids ss) (step_map ss) (λ j. contains-step_map j ss) s.depends_on
      (rank s.id) (rank k) (omega (arith, ap rank same)) known

-- `_validate` accepts every workflow with steps whose dependencies are steps and that some ranking
-- orders, dependencies below, if Python's stack is deeper than the ranks of the steps.
pub validate_ok_of_IsRanked :
    (rank : String → ℕ) (depth : ℕ) (ss : List WorkflowStepDef)
    → ss ≢ []
    → IsRanked rank (ids ss) ss
    → All (λ s. rank s.id < depth) ss
    → validate depth ss ≡ ok tt
unfolding validate
validate_ok_of_IsRanked rank depth [] some_step r h = absurd (some_step refl)
validate_ok_of_IsRanked rank depth (s ∷ ss) some_step r h =
    let all = s ∷ ss in
    let m = step_map all in
    let same = λ (k : String). contains-step_map k all in
    let (st, e, _) =
      visit_each-Ends rank m (dfs depth m) depth
        (dfs-Ends rank m (step_map-ranked rank all r) depth depth (omega arith)) (ids all) unmarked
        (ids-Below rank (ids all) m same depth all (λ k q. q) h) tt in
    rw (check_steps_ok rank (ids all) m same all (λ k q. q) r) (rw e)
