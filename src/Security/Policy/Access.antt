-- ===== src/Security/Policy/Access.antt =====
-- The checks of `PolicyEngine`, and the policy in force for an agent.
use sccsos.Prelude.{
  ℕ, ◌+◌, ◌≤◌, String, ◌≡◌, ◌≢◌, refl, sym, ap, ◌∙◌, ◌⊎◌, ◌↔◌, true, false, Option, none, some,
  List, [], ◌∷◌, if◌then◌else◌, has, arith, eq_iff, eq_refl,
}
use sccsos.Prelude.Dict.{get, get-put, get-put_self, get-remove}
use sccsos.Security.Policy.{
  PoliciesConfig, Override, PolicyEngine, PolicyResult, allowed, denied, or_else,
  default_allowed_tools, default_blocked_tools, spent_so_far, check_budget, set_agent_policy,
  get_policy_for, policy_from, check_delegation, check_tool_access, matches, scan_blocked,
  scan_toolsets, and_then, check_agent_toolsets, base_of, if_loaded, overridden, by_ref, or_base,
}

-- With a configuration loaded, a delegation is allowed exactly when the agent's policy sets no limit
-- (a limit of zero), or what the agent has spent (what all agents have, for the empty name) with the
-- estimate added is within the limit.
pub delegation_exact :
    (a : String) (cost : ℕ) (e : PolicyEngine) (c : PoliciesConfig)
    → e.cfg ≡ some c
    → let limit = (get_policy_for a e).max_cost_usd in
      (check_delegation a cost e ≡ allowed)
      ↔ ((limit ≡ 0) ⊎ (spent_so_far a (e.audit_log) + cost ≤ limit))
unfolding check_delegation check_budget
delegation_exact a cost e c h = (λ x. ground (arith, h), λ x. ground (arith, h))

-- With a configuration loaded, a tool is allowed exactly when the policy does not block it and its
-- allow-list has it, where an empty allow-list stands for the default one.
pub tool_access_exact :
    (a tool : String) (e : PolicyEngine) (c : PoliciesConfig)
    → e.cfg ≡ some c
    → let policy = get_policy_for a e in
      (check_tool_access a tool e ≡ allowed) ↔ (
        (has tool (policy.blocked_tools) ≡ false)
        × (has tool (or_else (policy.allowed_tools) default_allowed_tools) ≡ true))
unfolding check_tool_access
tool_access_exact a tool e c h = (λ x. ground (arith, h), λ x. ground (arith, h))

or_else-nil : (xs : List String) → or_else xs [] ≡ xs
or_else-nil [] = refl
or_else-nil (x ∷ xs) = refl

scan_blocked-none :
    (a ts b : String) (blocked : List String)
    → scan_blocked a ts blocked ≡ allowed
    → has b blocked ≡ true
    → matches b ts ≡ false
scan_blocked-none a ts b [] h m = ground arith
scan_blocked-none a ts b (x ∷ blocked) h m =
    ground (arith, eq_iff x b, scan_blocked-none a ts b blocked)

scan_blocked_all :
    (a ts : String) (blocked : List String)
    → ((b : String) → has b blocked ≡ true → matches b ts ≡ false)
    → scan_blocked a ts blocked ≡ allowed
scan_blocked_all a ts [] f = refl
scan_blocked_all a ts (x ∷ blocked) f =
    ground (arith, f x, eq_refl x, scan_blocked_all a ts blocked (λ b m. f b (ground (arith, m))))

and_then-both : (r q : PolicyResult) → and_then r q ≡ allowed → (r ≡ allowed) × (q ≡ allowed)
and_then-both allowed q h = (refl, h)
and_then-both (denied r) q h = ground arith

scan_toolsets-none :
    (a ts b : String) (blocked toolsets : List String)
    → scan_toolsets a blocked toolsets ≡ allowed
    → has ts toolsets ≡ true
    → has b blocked ≡ true
    → matches b ts ≡ false
scan_toolsets-none a ts b blocked [] h m n = ground arith
scan_toolsets-none a ts b blocked (x ∷ toolsets) h m n = ground (
  arith,
  eq_iff x ts,
  and_then-both (scan_blocked a x blocked) (scan_toolsets a blocked toolsets) h,
  scan_blocked-none a x b blocked,
  scan_toolsets-none a ts b blocked toolsets,
)

scan_toolsets_all :
    (a : String) (blocked toolsets : List String)
    → ((ts b : String) → has ts toolsets ≡ true → has b blocked ≡ true → matches b ts ≡ false)
    → scan_toolsets a blocked toolsets ≡ allowed
scan_toolsets_all a blocked [] f = refl
scan_toolsets_all a blocked (x ∷ toolsets) f = rw (
  scan_blocked_all a x blocked (λ b n. f x b (ground (arith, eq_refl x)) n),
  scan_toolsets_all a blocked toolsets (λ ts b m n. f ts b (ground (arith, m)) n),
)

-- With a configuration loaded, an agent's declared toolsets are allowed exactly when no blocked tool
-- of its policy is, whatever the letter case, a part of the name of one of them.
pub toolsets_exact :
    (a : String) (toolsets : List String) (e : PolicyEngine) (c : PoliciesConfig)
    → e.cfg ≡ some c
    → (check_agent_toolsets a toolsets e ≡ allowed) ↔ (
        (ts b : String)
        → has ts toolsets ≡ true
        → has b ((get_policy_for a e).blocked_tools) ≡ true
        → matches b ts ≡ false)
unfolding check_agent_toolsets
toolsets_exact a toolsets e c h = (forth, back)
  where
    blocked : List String
    blocked = or_else ((get_policy_for a e).blocked_tools) default_blocked_tools

    same_list : blocked ≡ (get_policy_for a e).blocked_tools
    same_list = or_else-nil ((get_policy_for a e).blocked_tools)

    scan : check_agent_toolsets a toolsets e ≡ scan_toolsets a blocked toolsets
    scan = ap (λ o. if_loaded o (scan_toolsets a blocked toolsets)) h

    forth :
        check_agent_toolsets a toolsets e ≡ allowed
        → (ts b : String) → has ts toolsets ≡ true
        → has b ((get_policy_for a e).blocked_tools) ≡ true
        → matches b ts ≡ false
    forth x ts b m n =
        scan_toolsets-none a ts b blocked toolsets (sym scan ∙ x) m (ap (has b) same_list ∙ n)

    back :
        ((ts b : String)
          → has ts toolsets ≡ true
          → has b ((get_policy_for a e).blocked_tools) ≡ true
          → matches b ts ≡ false)
        → check_agent_toolsets a toolsets e ≡ allowed
    back f =
        scan
        ∙ scan_toolsets_all a blocked toolsets
            (λ ts b m n. f ts b m (sym (ap (has b) same_list) ∙ n))

-- After `set_agent_policy` the agent's policy is what the given dict says of the configuration, or
-- the default if the policy is cleared, and no other agent's policy changes.
pub set_agent_policy_lem :
    (a b : String) (policy : Option Override) (e : PolicyEngine)
    → (get_policy_for a (set_agent_policy a policy e) ≡ policy_from (e.cfg) policy)
      × (a ≢ b → get_policy_for b (set_agent_policy a policy e) ≡ get_policy_for b e)
unfolding set_agent_policy get_policy_for
set_agent_policy_lem a b none e = (
  ap (policy_from (e.cfg)) {y = none}
      (get-remove a a (e.agent_policies) ∙ ground (arith, eq_refl a)),
  λ ne.
      ap (policy_from (e.cfg)) {y = get b (e.agent_policies)}
        (get-remove a b (e.agent_policies) ∙ ground (arith, eq_iff a b)),
)
set_agent_policy_lem a b (some p) e = (
  ap (policy_from (e.cfg)) (get-put_self a p (e.agent_policies)),
  λ ne.
      ap (policy_from (e.cfg)) {y = get b (e.agent_policies)}
        (get-put a b p (e.agent_policies) ∙ ground (arith, eq_iff a b)),
)

inline_policy :
    (cfg : Option PoliciesConfig) (o : Override)
    → o.ref ≡ none
    → o.allowed_tools ≡ some []
    → policy_from cfg (some o) ≡ overridden o (base_of cfg)
inline_policy cfg o r x =
    ap (λ b. if b then base_of cfg else by_ref cfg o (o.ref)) {y = false} (ground (arith, x))
    ∙ ap (by_ref cfg o) r

-- Where policies are configured, an inline policy of an agent, without a reference, that overrides the
-- allow-list with the empty list and sets a block list of its own does not deny every tool: each
-- default tool that is not in its block list is allowed.
pub empty_allow_list :
    (a tool : String) (o : Override) (blocked : List String) (e : PolicyEngine) (c : PoliciesConfig)
    → e.cfg ≡ some c
    → o.ref ≡ none
    → o.allowed_tools ≡ some []
    → o.blocked_tools ≡ some blocked
    → has tool blocked ≡ false
    → has tool default_allowed_tools ≡ true
    → check_tool_access a tool (set_agent_policy a (some o) e) ≡ allowed
unfolding set_agent_policy
empty_allow_list a tool o blocked e c h r x y n m =
    (tool_access_exact a tool (set_agent_policy a (some o) e) c h).1 (no_block, in_default)
  where
    policy : get_policy_for a (set_agent_policy a (some o) e) ≡ overridden o (base_of (e.cfg))
    policy = (set_agent_policy_lem a a (some o) e).0 ∙ inline_policy (e.cfg) o r x

    no_block : has tool ((get_policy_for a (set_agent_policy a (some o) e)).blocked_tools) ≡ false
    no_block =
        ap (λ p. has tool (p.blocked_tools)) policy
        ∙ ap (λ l. has tool (or_base l ((base_of (e.cfg)).blocked_tools))) y
        ∙ n

    in_default :
        has tool (
          or_else
            ((get_policy_for a (set_agent_policy a (some o) e)).allowed_tools)
            default_allowed_tools)
        ≡ true
    in_default =
        ap (λ p. has tool (or_else (p.allowed_tools) default_allowed_tools)) policy
        ∙ ap
            (λ l.
              has tool
                (or_else (or_base l ((base_of (e.cfg)).allowed_tools)) default_allowed_tools))
            x
        ∙ m
