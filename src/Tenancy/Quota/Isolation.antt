-- ===== src/Tenancy/Quota/Isolation.antt =====
-- The writes of one tenant, and the quota, usage and checks of another.
use sccsos.Agents.Lifecycle.{AgentRow}
use sccsos.Prelude.{
  ℕ, String, ◌≡◌, ◌≢◌, refl, ap, ◌∙◌, Bool, false, List, [], ◌∷◌, ◌++◌, str_eq, keep, length, arith,
  eq_iff,
}
use sccsos.Prelude.Dict.{Dict, values, get-put, get-remove}
use sccsos.Tenancy.Quota.{
  AuditRow, Tables, Limits, set_quota, reset_quota, get_quota, get_usage, quota_or, sum_of,
  of_tenant, of_tenant_on, check_agent_quota, check_token_quota, check_cost_quota, check_all,
  counts_agent,
}

-- A write of one tenant: `set_quota` and `reset_quota`, an operation that is logged, an agent that
-- is created, a memory entry that is stored.
pub data Write : Type 0 where
  set : Limits → ℕ → Write
  reset : Write
  log : AuditRow → Write
  add_agent : String → AgentRow → Write
  store : Write

-- The row of the write names its tenant.
pub data IsBy (u : String) : Write → Type 0 where
  set_by : (l : Limits) (now : ℕ) → IsBy u (set l now)
  reset_by : IsBy u reset
  log_by : (r : AuditRow) → (r.tenant_id) ≡ u → IsBy u (log r)
  add_by : (id : String) (a : AgentRow) → (a.tenant_id) ≡ u → IsBy u (add_agent id a)
  store_by : IsBy u store

unfoldable pub write : String → Write → Tables → Tables
write u (set l now) s = set_quota u l now s
write u reset s = reset_quota u s
write u (log r) s = record s { audit_log = s.audit_log ++ r ∷ [] }
write u (add_agent id a) s = record s { agents = s.agents ++ (id, a) ∷ [] }
write u store s = record s { memory_store = s.memory_store ++ u ∷ [] }

-- The checks read the tables through the quota and the usage.
module _ (t : String) (today : ℕ) (s s' : Tables) (q : get_quota t s' ≡ get_quota t s)
    (u : get_usage t today s' ≡ get_usage t today s) where
  check_all_ext :
      (tokens cost : ℕ) → check_all t today tokens cost s' ≡ check_all t today tokens cost s
  unfolding check_all check_agent_quota check_token_quota check_cost_quota
  check_all_ext tokens cost = rw (q, u)

agent_dropped :
    (t id : String) (a : AgentRow) (d : Dict AgentRow)
    → counts_agent t a ≡ false
    → length (keep (counts_agent t) (values (d ++ (id, a) ∷ [])))
      ≡ length (keep (counts_agent t) (values d))
agent_dropped t id a [] h = ground arith
agent_dropped t id a ((j, b) ∷ d) h = ground (arith, agent_dropped t id a d h)

row_dropped :
    (p : AuditRow → Bool) (f : AuditRow → ℕ) (rows : List AuditRow) (r : AuditRow)
    → p r ≡ false
    → sum_of p f (rows ++ r ∷ []) ≡ sum_of p f rows
row_dropped p f [] r h = ground arith
row_dropped p f (x ∷ rows) r h = ground (arith, row_dropped p f rows r h)

entry_dropped :
    (t u : String) (xs : List String)
    → u ≢ t
    → length (keep (λ x. str_eq x t) (xs ++ u ∷ [])) ≡ length (keep (λ x. str_eq x t) xs)
entry_dropped t u [] ne = ground (arith, eq_iff u t)
entry_dropped t u (x ∷ xs) ne = ground (arith, entry_dropped t u xs ne)

other_agent : (t u : String) (a : AgentRow) → u ≢ t → (a.tenant_id) ≡ u → counts_agent t a ≡ false
other_agent t u a ne e = ground (arith, eq_iff (a.tenant_id) t)

other_row : (t u : String) (r : AuditRow) → u ≢ t → (r.tenant_id) ≡ u → of_tenant t r ≡ false
other_row t u r ne e = ground (arith, eq_iff (r.tenant_id) t)

other_row_on :
    (t u : String) (today : ℕ) (r : AuditRow)
    → u ≢ t
    → (r.tenant_id) ≡ u
    → of_tenant_on t today r ≡ false
other_row_on t u today r ne e = ground (arith, other_row t u r ne e)

write-get_usage :
    (t u : String) (today : ℕ) (w : Write) (s : Tables)
    → IsBy u w
    → u ≢ t
    → get_usage t today (write u w s) ≡ get_usage t today s
unfolding write get_usage set_quota reset_quota
write-get_usage t u today w s (set_by l now) ne = refl
write-get_usage t u today w s reset_by ne = refl
write-get_usage t u today w s (log_by r e) ne = rw (
  row_dropped (of_tenant_on t today) (λ x. x.tokens_used) (s.audit_log) r
      (other_row_on t u today r ne e),
  row_dropped (of_tenant_on t today) (λ x. x.cost_usd) (s.audit_log) r
      (other_row_on t u today r ne e),
  row_dropped (of_tenant t) (λ x. x.cost_usd) (s.audit_log) r (other_row t u r ne e),
)
write-get_usage t u today w s (add_by id a e) ne =
    rw (agent_dropped t id a (s.agents) (other_agent t u a ne e))
write-get_usage t u today w s store_by ne = rw (entry_dropped t u (s.memory_store) ne)

write-get_quota :
    (t u : String) (w : Write) (s : Tables) → u ≢ t → get_quota t (write u w s) ≡ get_quota t s
unfolding write get_quota set_quota reset_quota
write-get_quota t u (set l now) s ne =
    ap (quota_or t) (get-put u t _ (s.tenant_quotas)) ∙ ground (arith, eq_iff u t)
write-get_quota t u reset s ne =
    ap (quota_or t) (get-remove u t (s.tenant_quotas)) ∙ ground (arith, eq_iff u t)
write-get_quota t u (log r) s ne = refl
write-get_quota t u (add_agent id a) s ne = refl
write-get_quota t u store s ne = refl

-- Whatever one tenant writes (its limits set or reset, an operation logged, an agent created, a
-- memory entry stored), every other tenant's `check_all` answers as it did before, with the same
-- reason where it refuses.
pub write-check_all :
    (t u : String) (today tokens cost : ℕ) (w : Write) (s : Tables)
    → IsBy u w
    → u ≢ t
    → check_all t today tokens cost (write u w s) ≡ check_all t today tokens cost s
write-check_all t u today tokens cost w s by ne =
    check_all_ext t today s (write u w s) (write-get_quota t u w s ne)
      (write-get_usage t u today w s by ne) tokens cost
