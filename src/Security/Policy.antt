-- ===== src/Security/Policy.antt =====
-- sccsos/security/policy.py: `BudgetTracker` and `PolicyEngine`. Costs are natural numbers of one
-- small unit of money. A tool name is a text by its code points where the source lowers it, and a
-- text elsewhere. An inline policy is a dict of overrides, each of which may be missing.
pub mod Access
mod Examples
use sccsos.Prelude.{
  ℕ, ◌+◌, ◌-◌, String, Bool, true, false, ◌&&◌, Option, none, some, List, [], ◌∷◌, if◌then◌else◌,
  ltb, str_eq, has,
}
use sccsos.Prelude.Dict.{Dict, get, put, remove}
use sccsos.Prelude.Text.{codes, lower, holds_text}

-- `PolicyDefaults`: the fields that `_get_policy_for` sets, and one of those that it leaves
pub record PolicyDefaults : Type 0 where
  pub max_tokens_per_session : ℕ
  pub max_cost_usd : ℕ
  pub allowed_tools : List String
  pub blocked_tools : List String
  pub allowed_commands : List String
  pub blocked_commands : List String

-- `AgentOSConfig.policies`
pub record PoliciesConfig : Type 0 where
  pub default : PolicyDefaults
  pub named : Dict PolicyDefaults

-- A policy dict of an agent: its keys that the engine looks up.
pub record Override : Type 0 where
  pub ref : Option String
  pub max_tokens_per_session : Option ℕ
  pub max_cost_usd : Option ℕ
  pub allowed_tools : Option (List String)
  pub blocked_tools : Option (List String)
  pub allowed_commands : Option (List String)
  pub other_keys : List String

pub record CostRow : Type 0 where
  pub agent_id : String
  pub cost_usd : ℕ

-- The engine, with the costs of `audit_log`
pub record PolicyEngine : Type 0 where
  pub audit_log : List CostRow
  pub cfg : Option PoliciesConfig
  pub agent_policies : Dict Override

pub data Reason : Type 0 where
  budget_exceeded : ℕ → ℕ → Reason
  tool_blocked : String → String → Reason
  tool_not_allowed : String → String → List String → Reason
  toolset_blocked : String → String → String → Reason

pub data PolicyResult : Type 0 where
  allowed : PolicyResult
  denied : Reason → PolicyResult

abbrev pub default_allowed_tools : List String
default_allowed_tools =
    "read_file" ∷ "search_files" ∷ "web_search" ∷ "web_extract" ∷ "terminal" ∷ []

abbrev pub default_blocked_tools : List String
default_blocked_tools = []

-- `xs or ys`
abbrev pub or_else : List String → List String → List String
or_else [] ys = ys
or_else (x ∷ xs) ys = x ∷ xs

abbrev pub or_base {ℓ} : {A : Type ℓ} → Option A → A → A
or_base none base = base
or_base (some a) base = a

abbrev pub costs : (CostRow → Bool) → List CostRow → ℕ
costs p [] = 0
costs p (r ∷ rows) = let rest = costs p rows in if p r then r.cost_usd + rest else rest

-- `BudgetTracker.spent_so_far`: an empty name is no name.
unfoldable pub spent_so_far : String → List CostRow → ℕ
spent_so_far agent_name rows =
    if str_eq agent_name ""
    then costs (λ _. true) rows
    else costs (λ r. str_eq (r.agent_id) agent_name) rows

-- `BudgetTracker.remaining_budget`
unfoldable pub remaining_budget : ℕ → String → List CostRow → ℕ
remaining_budget limit agent_name rows = limit - spent_so_far agent_name rows

-- `BudgetTracker.check`
unfoldable pub check_budget : ℕ → ℕ → String → List CostRow → PolicyResult
check_budget limit estimated_cost agent_name rows =
    let projected = spent_so_far agent_name rows + estimated_cost in
    if ltb limit projected then denied (budget_exceeded projected limit) else allowed

unfoldable pub set_agent_policy : String → Option Override → PolicyEngine → PolicyEngine
set_agent_policy agent_name none e = record e {
  agent_policies = remove agent_name (e.agent_policies);
}
set_agent_policy agent_name (some policy) e = record e {
  agent_policies = put agent_name policy (e.agent_policies);
}

-- What `PolicyDefaults()` holds: 5 dollars, in millionths.
abbrev pub policy_defaults : PolicyDefaults
policy_defaults = record {
  max_tokens_per_session = 100000;
  max_cost_usd = 5000000;
  allowed_tools = [];
  blocked_tools = [];
  allowed_commands = [];
  blocked_commands = [];
}

abbrev pub base_of : Option PoliciesConfig → PolicyDefaults
base_of none = policy_defaults
base_of (some c) = c.default

abbrev pub named_of : Option PoliciesConfig → String → Option PolicyDefaults
named_of none ref = none
named_of (some c) ref = get ref (c.named)

-- The fields over the default; the rest as the constructor sets them
abbrev pub overridden : Override → PolicyDefaults → PolicyDefaults
overridden ap base = record {
  max_tokens_per_session = or_base (ap.max_tokens_per_session) (base.max_tokens_per_session);
  max_cost_usd = or_base (ap.max_cost_usd) (base.max_cost_usd);
  allowed_tools = or_base (ap.allowed_tools) (base.allowed_tools);
  blocked_tools = or_base (ap.blocked_tools) (base.blocked_tools);
  allowed_commands = or_base (ap.allowed_commands) (base.allowed_commands);
  blocked_commands = policy_defaults.blocked_commands;
}

abbrev pub is_none {ℓ} : {A : Type ℓ} → Option A → Bool
is_none none = true
is_none (some a) = false

abbrev pub is_nil {ℓ} : {A : Type ℓ} → List A → Bool
is_nil [] = true
is_nil (x ∷ xs) = false

-- `not ap`, for a dict
abbrev pub is_empty : Override → Bool
is_empty ap =
    is_none (ap.ref)
    && is_none (ap.max_tokens_per_session)
    && is_none (ap.max_cost_usd)
    && is_none (ap.allowed_tools)
    && is_none (ap.blocked_tools)
    && is_none (ap.allowed_commands)
    && is_nil (ap.other_keys)

-- The policy that an agent's dict gives: a reference before anything else.
abbrev pub by_ref : Option PoliciesConfig → Override → Option String → PolicyDefaults
by_ref cfg ap none = overridden ap (base_of cfg)
by_ref cfg ap (some ref) = or_base (named_of cfg ref) (base_of cfg)

abbrev pub policy_from : Option PoliciesConfig → Option Override → PolicyDefaults
policy_from cfg none = base_of cfg
policy_from cfg (some ap) = if is_empty ap then base_of cfg else by_ref cfg ap (ap.ref)

-- `_get_policy_for`
unfoldable pub get_policy_for : String → PolicyEngine → PolicyDefaults
get_policy_for agent_name e = policy_from (e.cfg) (get agent_name (e.agent_policies))

-- `if not self._cfg: return PolicyResult(allowed=True)`
abbrev pub if_loaded : Option PoliciesConfig → PolicyResult → PolicyResult
if_loaded none result = allowed
if_loaded (some c) result = result

unfoldable pub check_delegation : String → ℕ → PolicyEngine → PolicyResult
check_delegation agent_name estimated_cost e =
    let limit = (get_policy_for agent_name e).max_cost_usd in
    if_loaded (e.cfg)
      (if ltb 0 limit then check_budget limit estimated_cost agent_name (e.audit_log) else allowed)

unfoldable pub check_tool_access : String → String → PolicyEngine → PolicyResult
check_tool_access agent_name tool_name e =
    let policy = get_policy_for agent_name e in
    let tools = or_else (policy.allowed_tools) default_allowed_tools in
    let blocked = or_else (policy.blocked_tools) default_blocked_tools in
    if_loaded (e.cfg) (
      if has tool_name blocked
      then denied (tool_blocked tool_name agent_name)
      else if has tool_name tools
      then allowed
      else denied (tool_not_allowed tool_name agent_name tools))

-- `blocked_tool.lower() in ts.lower()`
abbrev pub matches : String → String → Bool
matches blocked_tool ts = holds_text (lower (codes blocked_tool)) (lower (codes ts))

-- The two loops of `check_agent_toolsets`, up to the first match
abbrev pub scan_blocked : String → String → List String → PolicyResult
scan_blocked agent_name ts [] = allowed
scan_blocked agent_name ts (b ∷ blocked) =
    let rest = scan_blocked agent_name ts blocked in
    if matches b ts then denied (toolset_blocked agent_name ts b) else rest

abbrev pub and_then : PolicyResult → PolicyResult → PolicyResult
and_then allowed next = next
and_then (denied r) next = denied r

abbrev pub scan_toolsets : String → List String → List String → PolicyResult
scan_toolsets agent_name blocked [] = allowed
scan_toolsets agent_name blocked (ts ∷ toolsets) =
    and_then (scan_blocked agent_name ts blocked) (scan_toolsets agent_name blocked toolsets)

unfoldable pub check_agent_toolsets : String → List String → PolicyEngine → PolicyResult
check_agent_toolsets agent_name toolsets e =
    let blocked = or_else ((get_policy_for agent_name e).blocked_tools) default_blocked_tools in
    if_loaded (e.cfg) (scan_toolsets agent_name blocked toolsets)
