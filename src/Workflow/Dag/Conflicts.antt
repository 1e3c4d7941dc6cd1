-- ===== src/Workflow/Dag/Conflicts.antt =====
-- The test for a step id that conflicts, in `_validate`.
use sccsos.Prelude.{
  ℕ, zero, suc, String, ◌≡◌, ◌≢◌, true, inl, inr, List, [], ◌∷◌, has, arith, eq_refl, Bool-cases,
  Option-cases, ◌∙◌,
}
use sccsos.Prelude.Dict.{Dict, get}
use sccsos.Prelude.Result.{Result, err, ◌>>=◌, Result-cases}
use sccsos.Prelude.Sets.{Included}
use sccsos.Workflow.Definition.{WorkflowStepDef, ResolveError, ids, id_conflict}
use sccsos.Workflow.Dag.{
  Marks, unmarked, contains, visit_each, visit_step, leave, dfs, validate, check_steps, check_deps,
  step_map,
}
use sccsos.Workflow.Dag.Maps.{contains-step_map}

module _ (k : String) where
  check_deps-ne :
      (m : Dict WorkflowStepDef) (id : String) (xs : List String)
      → check_deps m id xs ≢ err (id_conflict k)
  unfolding check_deps
  check_deps-ne m id [] e = cc
  check_deps-ne m id (x ∷ xs) e = ground (arith, check_deps-ne m id xs)

  check_steps-ne :
      (m : Dict WorkflowStepDef) (known : List String) (ss : List WorkflowStepDef)
      → ((j : String) → contains j m ≡ has j known)
      → Included (ids ss) known
      → check_steps m ss ≢ err (id_conflict k)
  unfolding check_steps
  check_steps-ne m known [] same sub e = cc
  check_steps-ne m known (s ∷ ss) same sub e =
      let there : contains s.id m ≡ true = same s.id ∙ sub s.id (ground (arith, eq_refl s.id)) in
      let rest = check_steps-ne m known ss same (λ j h. sub j (ground (arith, h))) in
      elim (Result-cases (check_deps m s.id s.depends_on)) [
        | inl (_, good) ↦ rest (ground (arith, there, good))
        | inr (x, bad) ↦ check_deps-ne m s.id s.depends_on (ground (arith, there, bad))
      ]

  abbrev NoConflict : (String → Marks → Result ResolveError Marks) → Type 0
  NoConflict visit = (n : String) (st : Marks) → visit n st ≢ err (id_conflict k)

  visit_each-ne :
      (visit : String → Marks → Result ResolveError Marks)
      → NoConflict visit
      → (ns : List String) (st : Marks) → visit_each visit ns st ≢ err (id_conflict k)
  unfolding visit_each
  visit_each-ne visit v [] st e = cc
  visit_each-ne visit v (n ∷ ns) st e = elim (Result-cases (visit n st)) [
    | inl (mid, good) ↦ visit_each-ne visit v ns mid (ground (arith, good))
    | inr (x, bad) ↦ v n st (ground (arith, bad))
  ]

  step-ne :
      (m : Dict WorkflowStepDef) (depth : ℕ) (n : String) (st : Marks)
      → NoConflict (dfs depth m)
      → (visit_step (dfs depth m) n (get n m) st >>= leave n) ≢ err (id_conflict k)
  unfolding visit_step leave
  step-ne m depth n st v e = elim (Option-cases (get n m)) [
    | inl gone ↦ ground (arith, gone)
    | inr (s, found) ↦ elim (Result-cases (visit_each (dfs depth m) s.depends_on st)) [
      | inl (mid, good) ↦ ground (arith, found, good)
      | inr (x, bad) ↦ visit_each-ne (dfs depth m) v s.depends_on st (ground (arith, found, bad))
    ]
  ]

  dfs-ne : (m : Dict WorkflowStepDef) (depth : ℕ) → NoConflict (dfs depth m)
  unfolding dfs
  dfs-ne m zero n st e = cc
  dfs-ne m (suc depth) n st e = elim (Bool-cases (has n st.rec_stack)) [
    | inl on ↦ ground (arith, on)
    | inr off ↦ elim (Bool-cases (has n st.visited)) [
      | inl seen ↦ ground (arith, off, seen)
      | inr new ↦
          step-ne m depth n (record { visited = n ∷ st.visited; rec_stack = n ∷ st.rec_stack })
            (dfs-ne m depth) (ground (arith, off, new))
    ]
  ]

-- `_validate` raises "Step ID conflict" for no workflow at all, however many steps share an id.
pub validate-ne-id_conflict :
    (depth : ℕ) (ss : List WorkflowStepDef) (k : String) → validate depth ss ≢ err (id_conflict k)
unfolding validate
validate-ne-id_conflict depth [] k e = cc
validate-ne-id_conflict depth (s ∷ ss) k e =
    let m = step_map (s ∷ ss) in
    elim (Result-cases (check_steps m (s ∷ ss))) [
      | inr (x, bad) ↦
          check_steps-ne k m (ids (s ∷ ss)) (s ∷ ss) (λ j. contains-step_map j (s ∷ ss)) (λ j q. q)
            (ground (arith, bad))
      | inl (_, good) ↦ elim (Result-cases (visit_each (dfs depth m) (ids (s ∷ ss)) unmarked)) [
        | inl (st, fine) ↦ ground (arith, good, fine)
        | inr (x, bad) ↦
            visit_each-ne k (dfs depth m) (dfs-ne k m depth) (ids (s ∷ ss)) unmarked
              (ground (arith, good, bad))
      ]
    ]
