-- ===== src/Workflow/Dag/Examples.antt =====
-- Small workflows, and what the resolver does with them.
use sccsos.Prelude.{
  ℕ, String, ◌≡◌, ◌≢◌, refl, none, some, List, [], ◌∷◌, arith, str_eq, if◌then◌else◌, has,
}
use sccsos.Prelude.Dict.{get, put}
use sccsos.Prelude.Result.{ok, err}
use sccsos.Prelude.Sets.{count, bit}
use sccsos.Workflow.Definition.{WorkflowStepDef, cycle, id_conflict, ids}
use sccsos.Workflow.Dag.{validate, get_execution_order, get_step, scheduled_in, step_map}
use sccsos.Workflow.Dag.Order.{order_schedules_once, order-IsLayered, IsLayered}
use sccsos.Workflow.Dag.Validate.{validated_order, validate_ok_of_IsRanked}
use sccsos.Workflow.Dag.Conflicts.{validate-ne-id_conflict}

abbrev step : String → List String → WorkflowStepDef
step id deps = record {
  id = id;
  name = id;
  agent = "architect";
  prompt = "go";
  input = none;
  output = none;
  depends_on = deps;
  timeout = 600;
  retry = 0;
  condition = none;
}

abbrev review : List WorkflowStepDef
review =
    step "report" ("code" ∷ "test" ∷ [])
    ∷ step "code" ("plan" ∷ [])
    ∷ step "test" ("plan" ∷ [])
    ∷ step "plan" []
    ∷ []

abbrev review_layers : List (List String)
review_layers = ("plan" ∷ []) ∷ ("code" ∷ "test" ∷ []) ∷ ("report" ∷ []) ∷ []

review_order : get_execution_order review ≡ some (ok review_layers)
unfolding get_execution_order get put
review_order = refl

review_valid : validate 100 review ≡ ok tt
unfolding validate get put
review_valid = refl

review_loop : validate 100 (step "a" ("b" ∷ []) ∷ step "b" ("a" ∷ []) ∷ []) ≡ err (cycle "a")
unfolding validate get put
review_loop = refl

order_schedules_once_example :
    count "code" (scheduled_in review_layers) ≡ bit (has "code" (ids review))
order_schedules_once_example = order_schedules_once review review_layers review_order "code"

order-IsLayered_example : IsLayered (step_map review) [] review_layers
order-IsLayered_example =
    order-IsLayered review review_layers (refl, (refl, (refl, (refl, tt)))) review_order

validated_order_example :
    (layers : List (List String)) × (get_execution_order review ≡ some (ok layers))
validated_order_example = validated_order 100 review (refl, (refl, (refl, (refl, tt)))) review_valid

abbrev rank : String → ℕ
rank k = if str_eq k "plan" then 0 else if str_eq k "report" then 2 else 1

validate_ok_of_IsRanked_example : validate 3 review ≡ ok tt
validate_ok_of_IsRanked_example =
    validate_ok_of_IsRanked rank 3 review (λ e. cc)
      (
        ((omega arith, refl), ((omega arith, refl), tt)),
        (((omega arith, refl), tt), (((omega arith, refl), tt), (tt, tt))),
      )
      (omega arith)

abbrev twins : List WorkflowStepDef
twins =
    step "x" []
    ∷ step "a" ("x" ∷ [])
    ∷ step "a" ("b" ∷ [])
    ∷ step "b" ("c" ∷ [])
    ∷ step "c" ("x" ∷ [])
    ∷ []

validate-ne-id_conflict_example : validate 100 twins ≢ err (id_conflict "a")
validate-ne-id_conflict_example = validate-ne-id_conflict 100 twins "a"

-- The step that runs under the id "a" depends on "b", which stands in a later layer.
twins_order :
    get_execution_order twins ≡ some (ok (("x" ∷ []) ∷ ("a" ∷ "c" ∷ []) ∷ ("b" ∷ []) ∷ []))
unfolding get_execution_order get put
twins_order = refl

twins-step : get_step twins "a" ≡ ok (step "a" ("b" ∷ []))
unfolding get_step get put
twins-step = refl

twins_valid : validate 100 twins ≡ ok tt
unfolding validate get put
twins_valid = refl
