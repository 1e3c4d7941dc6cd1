-- ===== src/Agents/Lifecycle/Status.antt =====
-- What the public methods do to the statuses of the agents.
use sccsos.Prelude.{ℕ, String, ◌≡◌, none, some, str_eq, if◌then◌else◌, arith, subst}
use sccsos.Agents.Lifecycle.{
  Event, start, pause, fail, stop, resume, restart, agent_started, agent_paused, agent_resumed,
  agent_stopped, agent_failed, agent_restarted, session_or, Manager, get_status, start_agent,
  pause_agent, resume_agent, stop_agent, fail_agent, restart_agent,
}
use sccsos.Agents.Lifecycle.Diagram.{
  Op, do_create, do_start, do_resume, do_restart, do_pause, do_stop, do_fail, apply, target,
  event_of, after_event, method-status,
}
use sccsos.Agents.Lifecycle.Consistency.{IsConsistent}

event_eq : {a b : Event} → some a ≡ some b → a ≡ b
event_eq h = ground arith

-- What a call other than `create` does to the status of every agent, on all branches: the target
-- follows the matrix if it has an edge for the event and else keeps its status, and no other
-- agent's status changes.
pub apply-status :
    (now : ℕ) (op : Op) (s : Manager) (e : Event) (j : String)
    → IsConsistent s
    → event_of op ≡ some e
    → get_status j (apply now op s).1
      ≡ (if str_eq (target op) j then after_event e (get_status j s) else get_status j s)
unfolding apply start_agent resume_agent restart_agent pause_agent stop_agent fail_agent
apply-status now (do_create id spec) s e j c h = cc
apply-status now (do_start id session fresh) s e j c h =
    subst
      (λ x.
        get_status j (apply now (do_start id session fresh) s).1
        ≡ (if str_eq id j then after_event x (get_status j s) else get_status j s))
      (event_eq h)
      (method-status start agent_started id (some (session_or session fresh)) none now s j c.keyed)
apply-status now (do_resume id session fresh) s e j c h =
    subst
      (λ x.
        get_status j (apply now (do_resume id session fresh) s).1
        ≡ (if str_eq id j then after_event x (get_status j s) else get_status j s))
      (event_eq h)
      (method-status resume agent_resumed id (some (session_or session fresh)) none now s j c.keyed)
apply-status now (do_restart id session fresh) s e j c h =
    subst
      (λ x.
        get_status j (apply now (do_restart id session fresh) s).1
        ≡ (if str_eq id j then after_event x (get_status j s) else get_status j s))
      (event_eq h)
      (method-status restart agent_restarted id (some (session_or session fresh)) none now s j
        c.keyed)
apply-status now (do_pause id) s e j c h =
    subst
      (λ x.
        get_status j (apply now (do_pause id) s).1
        ≡ (if str_eq id j then after_event x (get_status j s) else get_status j s))
      (event_eq h) (method-status pause agent_paused id none none now s j c.keyed)
apply-status now (do_stop id) s e j c h =
    subst
      (λ x.
        get_status j (apply now (do_stop id) s).1
        ≡ (if str_eq id j then after_event x (get_status j s) else get_status j s))
      (event_eq h) (method-status stop agent_stopped id none none now s j c.keyed)
apply-status now (do_fail id error) s e j c h =
    subst
      (λ x.
        get_status j (apply now (do_fail id error) s).1
        ≡ (if str_eq id j then after_event x (get_status j s) else get_status j s))
      (event_eq h) (method-status fail agent_failed id none (some error) now s j c.keyed)
