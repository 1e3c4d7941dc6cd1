-- ===== src/Tenancy/Quota.antt =====
-- sccsos/core/quota_manager.py: `QuotaManager`. Amounts of money are natural numbers of one small
-- unit, days and instants natural numbers; today and now are arguments. A row of `agents` is the
-- row that the lifecycle manager writes, and `memory_store` gives the tenant of each of its rows.
pub mod Checks
pub mod Isolation
mod Examples
use sccsos.Agents.Lifecycle.{AgentStatus, created, running, paused, failed, terminated, AgentRow}
use sccsos.Prelude.{
  ℕ, ◌+◌, ◌*◌, String, Bool, true, false, ◌&&◌, Option, none, some, List, [], ◌∷◌, if◌then◌else◌,
  ltb, leb, ◌==◌, str_eq, keep, length,
}
use sccsos.Prelude.Dict.{Dict, get, put, remove, values}

pub record QuotaLimit : Type 0 where
  pub tenant_id : String
  pub max_agents : ℕ
  pub max_tokens_per_day : ℕ
  pub max_cost_per_day : ℕ
  pub max_cost_total : ℕ
  pub max_memory_entries : ℕ
  pub max_storage_mb : ℕ
  pub created_at : Option ℕ
  pub updated_at : Option ℕ

pub record QuotaUsage : Type 0 where
  pub tenant_id : String
  pub agent_count : ℕ
  pub tokens_today : ℕ
  pub cost_today : ℕ
  pub cost_total : ℕ
  pub memory_entries : ℕ

-- The columns of `audit_log` that quotas read.
pub record AuditRow : Type 0 where
  pub tenant_id : String
  pub date : ℕ
  pub tokens_used : ℕ
  pub cost_usd : ℕ

pub record Tables : Type 0 where
  pub tenant_quotas : Dict QuotaLimit
  pub agents : Dict AgentRow
  pub audit_log : List AuditRow
  pub memory_store : List String

-- The parameters of `set_quota` after the tenant.
pub record Limits : Type 0 where
  pub max_agents : ℕ
  pub max_tokens_per_day : ℕ
  pub max_cost_per_day : ℕ
  pub max_cost_total : ℕ
  pub max_memory_entries : ℕ
  pub max_storage_mb : ℕ

abbrev pub limit_row : String → Limits → Option ℕ → Option ℕ → QuotaLimit
limit_row t l since updated = record {
  tenant_id = t;
  max_agents = l.max_agents;
  max_tokens_per_day = l.max_tokens_per_day;
  max_cost_per_day = l.max_cost_per_day;
  max_cost_total = l.max_cost_total;
  max_memory_entries = l.max_memory_entries;
  max_storage_mb = l.max_storage_mb;
  created_at = since;
  updated_at = updated;
}

-- An amount of US dollars, in the unit, is `usd n`.
abbrev pub usd : ℕ → ℕ
usd n = n * 1000000

abbrev pub default_limits : Limits
default_limits = record {
  max_agents = 10;
  max_tokens_per_day = 500000;
  max_cost_per_day = usd 10;
  max_cost_total = usd 100;
  max_memory_entries = 10000;
  max_storage_mb = 1024;
}

-- `created_at` of the row that `ON CONFLICT(tenant_id)` updates
abbrev pub created_of : Option QuotaLimit → ℕ → Option ℕ
created_of none now = some now
created_of (some row) now = row.created_at

unfoldable pub set_quota : String → Limits → ℕ → Tables → Tables
set_quota t l now s = record s {
  tenant_quotas =
      put t (limit_row t l (created_of (get t (s.tenant_quotas)) now) (some now)) (s.tenant_quotas);
}

abbrev pub quota_or : String → Option QuotaLimit → QuotaLimit
quota_or t none = limit_row t default_limits none none
quota_or t (some row) = row

unfoldable pub get_quota : String → Tables → QuotaLimit
get_quota t s = quota_or t (get t (s.tenant_quotas))

unfoldable pub reset_quota : String → Tables → Tables
reset_quota t s = record s { tenant_quotas = remove t (s.tenant_quotas) }

-- `status IN ('created', 'running', 'paused')`
abbrev pub is_live : AgentStatus → Bool
is_live created = true
is_live running = true
is_live paused = true
is_live failed = false
is_live terminated = false

-- `SUM(f)` over the rows that `p` keeps
abbrev pub sum_of : (AuditRow → Bool) → (AuditRow → ℕ) → List AuditRow → ℕ
sum_of p f [] = 0
sum_of p f (r ∷ rows) = let rest = sum_of p f rows in if p r then f r + rest else rest

abbrev pub counts_agent : String → AgentRow → Bool
counts_agent t a = str_eq (a.tenant_id) t && is_live (a.status)

abbrev pub of_tenant : String → AuditRow → Bool
of_tenant t r = str_eq (r.tenant_id) t

abbrev pub of_tenant_on : String → ℕ → AuditRow → Bool
of_tenant_on t today r = str_eq (r.tenant_id) t && (r.date) == today

unfoldable pub get_usage : String → ℕ → Tables → QuotaUsage
get_usage t today s = record {
  tenant_id = t;
  agent_count = length (keep (counts_agent t) (values (s.agents)));
  tokens_today = sum_of (of_tenant_on t today) (λ r. r.tokens_used) (s.audit_log);
  cost_today = sum_of (of_tenant_on t today) (λ r. r.cost_usd) (s.audit_log);
  cost_total = sum_of (of_tenant t) (λ r. r.cost_usd) (s.audit_log);
  memory_entries = length (keep (λ u. str_eq u t) (s.memory_store));
}

-- `PolicyResult`, its reason by the check that fails and the two numbers it shows
pub data Reason : Type 0 where
  agent_quota daily_tokens daily_cost total_cost : ℕ → ℕ → Reason

pub data PolicyResult : Type 0 where
  allowed : PolicyResult
  denied : Reason → PolicyResult

unfoldable pub check_agent_quota : String → ℕ → Tables → PolicyResult
check_agent_quota t today s =
    let quota = get_quota t s in
    let usage = get_usage t today s in
    if leb (quota.max_agents) (usage.agent_count)
    then denied (agent_quota (usage.agent_count) (quota.max_agents))
    else allowed

unfoldable pub check_token_quota : String → ℕ → ℕ → Tables → PolicyResult
check_token_quota t today estimated_tokens s =
    let quota = get_quota t s in
    let projected = (get_usage t today s).tokens_today + estimated_tokens in
    if ltb (quota.max_tokens_per_day) projected
    then denied (daily_tokens projected (quota.max_tokens_per_day))
    else allowed

unfoldable pub check_cost_quota : String → ℕ → ℕ → Tables → PolicyResult
check_cost_quota t today estimated_cost s =
    let quota = get_quota t s in
    let usage = get_usage t today s in
    let projected_daily = usage.cost_today + estimated_cost in
    let projected_total = usage.cost_total + estimated_cost in
    if ltb (quota.max_cost_per_day) projected_daily
    then denied (daily_cost projected_daily (quota.max_cost_per_day))
    else if ltb (quota.max_cost_total) projected_total
    then denied (total_cost projected_total (quota.max_cost_total))
    else allowed

-- The first failing check, or the next one.
abbrev pub and_then : PolicyResult → PolicyResult → PolicyResult
and_then allowed next = next
and_then (denied r) next = denied r

unfoldable pub check_all : String → ℕ → ℕ → ℕ → Tables → PolicyResult
check_all t today estimated_tokens estimated_cost s = and_then (check_agent_quota t today s) (
    and_then (check_token_quota t today estimated_tokens s)
      (check_cost_quota t today estimated_cost s))
