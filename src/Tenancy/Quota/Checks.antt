-- ===== src/Tenancy/Quota/Checks.antt =====
-- `QuotaManager.check_all` against the limits and the usage of a tenant.
use sccsos.Prelude.{ℕ, ◌+◌, ◌≤◌, ◌<◌, String, ◌≡◌, ◌↔◌, ◌∷◌, arith, eq_refl}
use sccsos.Tenancy.Quota.{
  QuotaLimit, QuotaUsage, Tables, allowed, get_quota, get_usage, check_agent_quota,
  check_token_quota, check_cost_quota, check_all,
}

-- The usage is within the limits, with room for one more agent and for the given estimates.
pub record HasRoom (q : QuotaLimit) (u : QuotaUsage) (tokens cost : ℕ) : Type 0 where
  pub agents : u.agent_count < q.max_agents
  pub tokens_left : u.tokens_today + tokens ≤ q.max_tokens_per_day
  pub daily_left : u.cost_today + cost ≤ q.max_cost_per_day
  pub total_left : u.cost_total + cost ≤ q.max_cost_total

-- `check_all` allows an operation exactly when its tenant has fewer live agents than its limit, and
-- today's tokens, today's cost and the total cost, each with its estimate added, are within theirs.
pub check_all_exact :
    (t : String) (today tokens cost : ℕ) (s : Tables)
    → (check_all t today tokens cost s ≡ allowed)
      ↔ HasRoom (get_quota t s) (get_usage t today s) tokens cost
unfolding check_all check_agent_quota check_token_quota check_cost_quota
check_all_exact t today tokens cost s = (forth, back)
  where
    q : QuotaLimit
    q = get_quota t s

    u : QuotaUsage
    u = get_usage t today s

    forth : check_all t today tokens cost s ≡ allowed → HasRoom q u tokens cost
    forth h = record {
      agents = ground arith;
      tokens_left = ground arith;
      daily_left = ground arith;
      total_left = ground arith;
    }

    back : HasRoom q u tokens cost → check_all t today tokens cost s ≡ allowed
    back r = ground (arith, r.agents, r.tokens_left, r.daily_left, r.total_left)

-- The row that one operation of a tenant leaves in `audit_log`.
abbrev pub spend : String → ℕ → ℕ → ℕ → Tables → Tables
spend t today tokens cost s = record s {
  audit_log =
      record { tenant_id = t; date = today; tokens_used = tokens; cost_usd = cost } ∷ s.audit_log;
}

-- If `check_all` allows an operation, and the operation is then recorded with at most the estimated
-- tokens and cost and no other in between, today's tokens, today's cost and the total cost of the
-- tenant are still within its limits.
pub allowed-within :
    (t : String) (today tokens cost spent_tokens spent_cost : ℕ) (s : Tables)
    → check_all t today tokens cost s ≡ allowed
    → spent_tokens ≤ tokens
    → spent_cost ≤ cost
    → let after = spend t today spent_tokens spent_cost s in
      let q = get_quota t after in
      let u = get_usage t today after in
      (u.tokens_today ≤ q.max_tokens_per_day)
      × (u.cost_today ≤ q.max_cost_per_day)
      × (u.cost_total ≤ q.max_cost_total)
unfolding get_quota get_usage
allowed-within t today tokens cost spent_tokens spent_cost s h le le' = (
  ground (arith, eq_refl t, room.tokens_left),
  ground (arith, eq_refl t, room.daily_left),
  ground (arith, eq_refl t, room.total_left),
)
  where
    room : HasRoom (get_quota t s) (get_usage t today s) tokens cost
    room = ((check_all_exact t today tokens cost s).0) h
