-- ===== src/Workflow/Dag/Release.antt =====
-- One round of Kahn's algorithm: the `for` loop of `get_execution_order`.
use sccsos.Prelude.{
  ℕ, ◌+◌, String, ◌≡◌, refl, Bool, true, false, ◌&&◌, inl, inr, Option, none, some, List, [], ◌∷◌,
  ◌++◌, All, length, length-append, has, every, ltb, arith, eq_iff, eq_refl, Bool-cases, subst,
}
use sccsos.Prelude.Dict.{Dict, get, put, get-put}
use sccsos.Prelude.Sets.{count, count-append, bit, every-append}
use sccsos.Workflow.Definition.{WorkflowStepDef}
use sccsos.Workflow.Dag.{release, is_waiting, zero_degree}
use sccsos.Workflow.Dag.Maps.{Holds}

-- The number of steps that wait.
pub waiting : Dict ℕ → ℕ
waiting [] = 0
waiting ((k, n) ∷ d) = bit (ltb 0 n) + waiting d

waiting-put :
    (k : String) (d : Dict ℕ) → is_waiting k d ≡ true → waiting (put k 0 d) + 1 ≡ waiting d
unfolding waiting put get
waiting-put k [] h = ground arith
waiting-put k ((j, n) ∷ d) h = ground (arith, waiting-put k d)

pub waiting-zero_degree : (d : Dict ℕ) → waiting d + length (zero_degree d) ≡ length d
unfolding waiting zero_degree
waiting-zero_degree [] = omega arith
waiting-zero_degree ((j, n) ∷ d) = ground (arith, waiting-zero_degree d)

module _ (sched : List String) where
  -- A round moves steps from waiting to the queue, so their number in all stays.
  pub waiting-release :
      (ss : List WorkflowStepDef) (d : Dict ℕ) (q : List String)
      → waiting (release sched ss d q).0 + length (release sched ss d q).1 ≡ waiting d + length q
  unfolding release
  waiting-release [] d q = refl
  waiting-release (s ∷ ss) d q = ground (
    arith,
    waiting-release ss d q,
    waiting-release ss (put s.id 0 d) (q ++ s.id ∷ []),
    waiting-put s.id d,
    length-append q (s.id ∷ []),
  )

  -- The same for one id: a queued step waits no more.
  pub count-release :
      (k : String) (ss : List WorkflowStepDef) (d : Dict ℕ) (q : List String)
      → count k (release sched ss d q).1 + bit (is_waiting k (release sched ss d q).0)
        ≡ count k q + bit (is_waiting k d)
  unfolding release
  count-release k [] d q = refl
  count-release k (s ∷ ss) d q = ground (
    arith,
    count-release k ss d q,
    count-release k ss (put s.id 0 d) (q ++ s.id ∷ []),
    get-put s.id k 0 d,
    eq_iff s.id k,
    count-append k q (s.id ∷ []),
  )

  -- What does not wait does not wait after the round.
  release_stays :
      (k : String) (ss : List WorkflowStepDef) (d : Dict ℕ) (q : List String)
      → is_waiting k d ≡ false
      → is_waiting k (release sched ss d q).0 ≡ false
  unfolding release
  release_stays k [] d q h = h
  release_stays k (s ∷ ss) d q h = ground (
    arith,
    release_stays k ss d q,
    release_stays k ss (put s.id 0 d) (q ++ s.id ∷ []),
    get-put s.id k 0 d,
  )

  abbrev pub Settled : Dict ℕ → List WorkflowStepDef → Type 0
  Settled d =
      All (λ s. every (λ dep. has dep sched) s.depends_on ≡ true → is_waiting s.id d ≡ false)

  -- What the test for a step says.
  ready : WorkflowStepDef → Dict ℕ → Bool
  ready s d = is_waiting s.id d && every (λ dep. has dep sched) s.depends_on

  release_taken :
      (s : WorkflowStepDef) (ss : List WorkflowStepDef) (d : Dict ℕ) (q : List String)
      → ready s d ≡ true
      → release sched ss (put s.id 0 d) (q ++ s.id ∷ []) ≡ release sched (s ∷ ss) d q
  unfolding release ready
  release_taken s ss d q h = rw h

  release_left :
      (s : WorkflowStepDef) (ss : List WorkflowStepDef) (d : Dict ℕ) (q : List String)
      → ready s d ≡ false
      → release sched ss d q ≡ release sched (s ∷ ss) d q
  unfolding release ready
  release_left s ss d q h = rw h

  not_waiting :
      (s : WorkflowStepDef) (ss : List WorkflowStepDef) (d : Dict ℕ) (q : List String)
      → every (λ dep. has dep sched) s.depends_on ≡ true
      → is_waiting s.id (release sched (s ∷ ss) d q).0 ≡ false
  unfolding release
  not_waiting s ss d q met = ground (
    arith,
    release_stays s.id ss d q,
    release_stays s.id ss (put s.id 0 d) (q ++ s.id ∷ []),
    get-put s.id s.id 0 d,
    eq_refl s.id,
  )

  -- After the round no step waits whose dependencies are all scheduled.
  pub release-Settled :
      (ss : List WorkflowStepDef) (d : Dict ℕ) (q : List String)
      → Settled (release sched ss d q).0 ss
  release-Settled [] d q = tt
  release-Settled (s ∷ ss) d q = (
    not_waiting s ss d q,
    elim (Bool-cases (ready s d)) [
      | inl h ↦
          subst (λ r. Settled r.0 ss) (release_taken s ss d q h)
            (release-Settled ss (put s.id 0 d) (q ++ s.id ∷ []))
      | inr h ↦ subst (λ r. Settled r.0 ss) (release_left s ss d q h) (release-Settled ss d q)
    ],
  )

-- The dependencies of the step that the map holds under an id are all in the list.
abbrev met_by : List String → Option WorkflowStepDef → Bool
met_by prior none = false
met_by prior (some s) = every (λ dep. has dep prior) s.depends_on

abbrev pub deps_met : Dict WorkflowStepDef → List String → String → Bool
deps_met m prior k = met_by prior (get k m)

-- What the round queues has its dependencies scheduled.
pub release_met :
    (m : Dict WorkflowStepDef) (sched : List String) (ss : List WorkflowStepDef) (d : Dict ℕ)
    (q : List String)
    → Holds m ss
    → every (deps_met m sched) q ≡ true
    → every (deps_met m sched) (release sched ss d q).1 ≡ true
unfolding release
release_met m sched [] d q h e = e
release_met m sched (s ∷ ss) d q h e = ground (
  arith,
  release_met m sched ss d q h.1,
  release_met m sched ss (put s.id 0 d) (q ++ s.id ∷ []) h.1,
  every-append (deps_met m sched) q (s.id ∷ []),
  h.0,
)
