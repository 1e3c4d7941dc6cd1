-- ===== src/Workflow/Definition.antt =====
-- sccsos/core/workflow/definition.py: the step definition, and what a resolver can raise.
use sccsos.Prelude.{ℕ, String, Option, List, [], ◌∷◌}

pub record WorkflowStepDef : Type 0 where
  pub id : String
  pub name : String
  pub agent : String
  pub prompt : String
  pub input : Option String
  pub output : Option String
  pub depends_on : List String
  pub timeout : ℕ
  pub retry : ℕ
  pub condition : Option String

-- The cases of `WorkflowValidationError` that the resolver raises, the `KeyError` of a missing
-- step, and Python's `RecursionError`.
pub data ResolveError : Type 0 where
  no_steps : ResolveError
  id_conflict : String → ResolveError
  unknown_dependency : (step dep : String) → ResolveError
  cycle : String → ResolveError
  cannot_schedule : List String → ResolveError
  key_error : String → ResolveError
  recursion_error : ResolveError

abbrev pub ids : List WorkflowStepDef → List String
ids [] = []
ids (s ∷ ss) = s.id ∷ ids ss
