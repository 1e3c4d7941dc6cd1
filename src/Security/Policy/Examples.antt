-- ===== src/Security/Policy/Examples.antt =====
-- An engine with one agent that overrides its tools.
use sccsos.Prelude.{String, ◌≡◌, refl, ◌↔◌, true, false, none, some, [], ◌∷◌, has}
use sccsos.Prelude.Dict.{get}
use sccsos.Prelude.Text.{lower, holds_text, begins_with}
use sccsos.Security.Policy.{
  PoliciesConfig, Override, PolicyEngine, allowed, denied, toolset_blocked, policy_defaults,
  spent_so_far, check_budget, remaining_budget, set_agent_policy, get_policy_for, check_delegation,
  check_tool_access, check_agent_toolsets, matches,
}
use sccsos.Security.Policy.Access.{toolsets_exact, empty_allow_list}

abbrev config : PoliciesConfig
config = record { default = policy_defaults; named = [] }

abbrev no_tools : Override
no_tools = record {
  ref = none;
  max_tokens_per_session = none;
  max_cost_usd = some 300;
  allowed_tools = some [];
  blocked_tools = some ("Terminal" ∷ []);
  allowed_commands = none;
  other_keys = [];
}

abbrev engine : PolicyEngine
engine = record {
  audit_log =
      record { agent_id = "coder"; cost_usd = 250 }
      ∷ record { agent_id = "critic"; cost_usd = 900 }
      ∷ [];
  cfg = some config;
  agent_policies = ("coder", no_tools) ∷ [];
}

coder_in_budget : check_delegation "coder" 50 engine ≡ allowed
unfolding check_delegation get_policy_for get check_budget spent_so_far
coder_in_budget = refl

coder_left : remaining_budget 300 "coder" (engine.audit_log) ≡ 50
unfolding remaining_budget spent_so_far
coder_left = refl

toolset_refused :
    check_agent_toolsets "coder" ("git" ∷ "my-TERMINAL" ∷ []) engine
    ≡ denied (toolset_blocked "coder" "my-TERMINAL" "Terminal")
unfolding check_agent_toolsets get_policy_for get lower holds_text begins_with
toolset_refused = refl

toolsets_exact_example : (check_agent_toolsets "coder" ("git" ∷ []) engine ≡ allowed) ↔ (
    (ts b : String)
    → has ts ("git" ∷ []) ≡ true
    → has b ((get_policy_for "coder" engine).blocked_tools) ≡ true
    → matches b ts ≡ false)
toolsets_exact_example = toolsets_exact "coder" ("git" ∷ []) engine config refl

-- The block list spells the tool with another letter case, which `check_tool_access` compares.
empty_allow_list_example :
    check_tool_access "coder" "terminal" (set_agent_policy "coder" (some no_tools) engine) ≡ allowed
empty_allow_list_example =
    empty_allow_list "coder" "terminal" no_tools ("Terminal" ∷ []) engine config refl refl refl refl
      refl refl
