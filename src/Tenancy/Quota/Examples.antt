-- ===== src/Tenancy/Quota/Examples.antt =====
-- Two tenants: one with its own limits and two logged operations, one with the defaults.
use sccsos.Prelude.{ℕ, String, ◌≡◌, ◌≢◌, refl, ◌↔◌, some, [], ◌∷◌, arith, str_eq, subst, true}
use sccsos.Prelude.Dict.{get}
use sccsos.Tenancy.Quota.{
  AuditRow, Tables, Limits, limit_row, default_limits, usd, get_quota, get_usage, check_agent_quota,
  check_token_quota, check_cost_quota, check_all, allowed, denied, daily_tokens,
}
use sccsos.Tenancy.Quota.Checks.{HasRoom, check_all_exact}
use sccsos.Tenancy.Quota.Isolation.{log, log_by, write, write-check_all}

abbrev small : Limits
small = record default_limits { max_tokens_per_day = 1000 }

abbrev logged : ℕ → ℕ → AuditRow
logged day tokens = record {
  tenant_id = "acme";
  date = day;
  tokens_used = tokens;
  cost_usd = usd 1;
}

abbrev tables : Tables
tables = record {
  tenant_quotas = ("acme", limit_row "acme" small (some 1) (some 2)) ∷ [];
  agents = [];
  audit_log = logged 7 600 ∷ logged 6 900 ∷ [];
  memory_store = "acme" ∷ "umbrella" ∷ [];
}

allowed_today : check_all "acme" 7 400 (usd 2) tables ≡ allowed
unfolding check_all check_agent_quota check_token_quota check_cost_quota get_quota get_usage get
allowed_today = refl

refused_today : check_all "acme" 7 401 0 tables ≡ denied (daily_tokens 1001 1000)
unfolding check_all check_agent_quota check_token_quota check_cost_quota get_quota get_usage get
refused_today = refl

check_all_exact_example :
    (check_all "acme" 7 400 (usd 2) tables ≡ allowed)
    ↔ HasRoom (get_quota "acme" tables) (get_usage "acme" 7 tables) 400 (usd 2)
check_all_exact_example = check_all_exact "acme" 7 400 (usd 2) tables

differ : ◌≢◌ {A = String} "acme" "umbrella"
differ e = ground (arith, subst (λ u. str_eq "acme" u ≡ true) e refl)

write-check_all_example :
    check_all "umbrella" 7 10 0 (write "acme" (log (logged 7 5000)) tables)
    ≡ check_all "umbrella" 7 10 0 tables
write-check_all_example =
    write-check_all "umbrella" "acme" 7 10 0 (log (logged 7 5000)) tables
      (log_by (logged 7 5000) refl) differ
