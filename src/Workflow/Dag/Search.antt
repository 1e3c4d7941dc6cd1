-- ===== src/Workflow/Dag/Search.antt =====
-- The depth-first search of `_validate`, and the steps that it has finished.
use sccsos.Prelude.{
  ℕ, zero, suc, String, ◌≡◌, refl, ap, ◌∙◌, true, false, ◌||◌, inl, inr, some, List, [], ◌∷◌, has,
  every, arith, eq_iff, eq_refl, Bool-cases, Option-cases, subst,
}
use sccsos.Prelude.Dict.{Dict, get}
use sccsos.Prelude.Result.{Result, ok, ◌>>=◌, Result-cases}
use sccsos.Prelude.Sets.{Included}
use sccsos.Workflow.Definition.{WorkflowStepDef, ResolveError}
use sccsos.Workflow.Dag.{Marks, without, visit_each, visit_step, leave, dfs}
use sccsos.Workflow.Dag.Coverage.{IsOrdered}

-- A node that is not on the stack: pushing and removing it leaves the stack as it was.
pub without_fresh : (k : String) (xs : List String) → has k xs ≡ false → without k xs ≡ xs
without_fresh k [] h = refl
without_fresh k (x ∷ xs) h = ground (arith, without_fresh k xs, eq_iff x k)

-- The marks after `visited.add(node)` and `rec_stack.add(node)`.
abbrev pub entered : String → Marks → Marks
entered node st = record { visited = node ∷ st.visited; rec_stack = node ∷ st.rec_stack }

-- What is visited is finished or on the stack; what is finished is in order.
pub record Explored (m : Dict WorkflowStepDef) (st : Marks) (done : List String) : Type 0 where
  pub marked : (k : String) → has k st.visited ≡ (has k done || has k st.rec_stack)
  pub ordered : IsOrdered m done

-- A search from `st` has ended in `st'`, with more nodes finished and the same stack.
pub record Extends (m : Dict WorkflowStepDef) (st st' : Marks) (done : List String) : Type 0 where
  pub finished : List String
  pub explored : Explored m st' finished
  pub grown : Included done finished
  pub stack : st'.rec_stack ≡ st.rec_stack

module _ (m : Dict WorkflowStepDef) where
  abbrev pub Visits : (String → Marks → Result ResolveError Marks) → Type 0
  Visits visit =
      (node : String) (st st' : Marks) (done : List String)
      → Explored m st done
      → visit node st ≡ ok st'
      → (x : Extends m st st' done) × (has node x.finished ≡ true)

  pub visit_each-Extends :
      (visit : String → Marks → Result ResolveError Marks)
      → Visits visit
      → (ns : List String) (st st' : Marks) (done : List String) → Explored m st done
      → visit_each visit ns st ≡ ok st'
      → (x : Extends m st st' done) × (every (λ n. has n x.finished) ns ≡ true)
  unfolding visit_each
  visit_each-Extends visit v [] st st' done h e = (
    record {
      finished = done;
      explored = subst (λ s. Explored m s done) (ground arith) h;
      grown = λ k q. q;
      stack = ground arith;
    },
    refl,
  )
  visit_each-Extends visit v (n ∷ ns) st st' done h e = elim (Result-cases (visit n st)) [
    | inr (x, bad) ↦ ground (arith, bad)
    | inl (mid, good) ↦
        let (a, here) = v n st mid done h good in
        let (b, rest) =
          visit_each-Extends visit v ns mid st' a.finished a.explored (ground (arith, good)) in
        (
          record {
            finished = b.finished;
            explored = b.explored;
            grown = λ k q. b.grown k (a.grown k q);
            stack = b.stack ∙ a.stack;
          },
          ground (arith, rest, b.grown n here),
        )
  ]

  entered-Explored :
      (node : String) (st : Marks) (done : List String)
      → Explored m st done
      → Explored m (entered node st) done
  entered-Explored node st done h = record {
    marked = λ k. ground (arith, h.marked k);
    ordered = h.ordered;
  }

  -- The stack after the node is taken off again.
  pub stack-leave :
      (node : String) (st mid : Marks)
      → has node st.rec_stack ≡ false
      → mid.rec_stack ≡ node ∷ st.rec_stack
      → without node mid.rec_stack ≡ st.rec_stack
  stack-leave node st mid fresh e =
      ap (without node) e ∙ ground (arith, without_fresh node st.rec_stack fresh, eq_refl node)

  left-Extends :
      (node : String) (s : WorkflowStepDef) (st mid : Marks) (done : List String)
      → has node st.rec_stack ≡ false
      → get node m ≡ some s
      → (a : Extends m (entered node st) mid done)
      → every (λ n. has n a.finished) s.depends_on ≡ true
      → (x : Extends m st (record mid { rec_stack = without node mid.rec_stack }) done) × (has node
            x.finished
          ≡ true)
  left-Extends node s st mid done fresh found a deps =
      let back = stack-leave node st mid fresh a.stack in
      (
        record {
          finished = node ∷ a.finished;
          explored = record {
            marked = λ k. ground (arith, a.explored.marked k, ap (has k) a.stack, ap (has k) back);
            ordered = (ground (arith, found, deps), a.explored.ordered);
          };
          grown = λ k q. ground (arith, a.grown k q);
          stack = back;
        },
        ground (arith, eq_refl node),
      )

  step-Extends :
      (depth : ℕ)
      → Visits (dfs depth m)
      → (node : String) (st st' : Marks) (done : List String) → has node st.rec_stack ≡ false
      → Explored m st done
      → (visit_step (dfs depth m) node (get node m) (entered node st) >>= leave node) ≡ ok st'
      → (x : Extends m st st' done) × (has node x.finished ≡ true)
  unfolding visit_step leave
  step-Extends depth v node st st' done fresh h e = elim (Option-cases (get node m)) [
    | inl gone ↦ absurd (ground (arith, gone))
    | inr (s, found) ↦
        elim (Result-cases (visit_each (dfs depth m) s.depends_on (entered node st))) [
          | inr (x, bad) ↦ absurd (ground (arith, found, bad))
          | inl (mid, good) ↦
              let (a, deps) =
                visit_each-Extends (dfs depth m) v s.depends_on (entered node st) mid done
                  (entered-Explored node st done h) good in
              subst (λ t. (x : Extends m st t done) × (has node x.finished ≡ true))
                (ground (arith, found, good)) (left-Extends node s st mid done fresh found a deps)
        ]
  ]

  pub dfs-Visits : (depth : ℕ) → Visits (dfs depth m)
  unfolding dfs
  dfs-Visits zero node st st' done h e = absurd (ground arith)
  dfs-Visits (suc depth) node st st' done h e = elim (Bool-cases (has node st.rec_stack)) [
    | inl on ↦ absurd (ground (arith, on))
    | inr off ↦ elim (Bool-cases (has node st.visited)) [
      | inl seen ↦ (
        record {
          finished = done;
          explored = subst (λ s. Explored m s done) (ground (arith)) h;
          grown = λ k q. q;
          stack = ground arith;
        },
        ground (arith, h.marked node),
      )
      | inr new ↦ step-Extends depth (dfs-Visits depth) node st st' done off h (ground arith)
    ]
  ]
