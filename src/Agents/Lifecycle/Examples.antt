-- ===== src/Agents/Lifecycle/Examples.antt =====
-- Two agents and their log.
use sccsos.Prelude.{ℕ, ◌≡◌, refl, none, some, List, [], ◌∷◌}
use sccsos.Prelude.Dict.{get, put}
use sccsos.Prelude.Result.{err}
use sccsos.Agents.Lifecycle.{
  created, failed, stop, pause, AgentSpec, Manager, get_status, fresh_manager, transition_error,
  AgentRow, create, start_agent, pause_agent, fail_agent, restart_agent, transitions,
}
use sccsos.Agents.Lifecycle.Diagram.{
  Op, do_create, do_start, do_restart, do_pause, do_stop, do_fail, apply, after_event,
}
use sccsos.Agents.Lifecycle.Consistency.{
  IsConsistent, fresh-IsConsistent, apply-IsConsistent, apply_error,
}
use sccsos.Agents.Lifecycle.Status.{apply-status}
use sccsos.Agents.Lifecycle.History.{apply_all, log_walks_matrix, track_from, unborn, track_of}

abbrev spec : AgentSpec
spec = record {
  name = "architect";
  version = "1.0";
  profile = "sccsos";
  tenant_id = "default";
  json = "";
}

abbrev calls : List (ℕ × Op)
calls =
    (1, do_create "agent_1" spec)
    ∷ (2, do_start "agent_1" none "ses_1")
    ∷ (3, do_create "agent_2" spec)
    ∷ (4, do_fail "agent_1" "timeout")
    ∷ (5, do_pause "agent_2")
    ∷ (6, do_restart "agent_1" (some "ses_0") "ses_2")
    ∷ (7, do_fail "agent_1" "")
    ∷ []

-- What a run of the manager computes with.
program : Unit {0}
unfolding apply_all get_status get put create start_agent pause_agent fail_agent restart_agent
    transitions
program = tt

calls-status : get_status "agent_1" (apply_all calls fresh_manager) ≡ some failed
unfolding program
calls-status = refl

one : Manager
one = (apply 1 (do_create "agent_1" spec) fresh_manager).1

apply-IsConsistent_example : IsConsistent one
unfolding one
apply-IsConsistent_example =
    apply-IsConsistent 1 (do_create "agent_1" spec) fresh_manager fresh-IsConsistent

pause_created : (apply 2 (do_pause "agent_1") one).0 ≡ err (transition_error created pause)
unfolding one program
pause_created = refl

apply_error_example : (apply 2 (do_pause "agent_1") one).1 ≡ one
apply_error_example =
    apply_error 2 (do_pause "agent_1") one (transition_error created pause) pause_created

apply-status_example :
    get_status "agent_1" (apply 2 (do_stop "agent_1") one).1
    ≡ after_event stop (get_status "agent_1" one)
apply-status_example =
    apply-status 2 (do_stop "agent_1") one stop "agent_1" apply-IsConsistent_example refl

log_walks_matrix_example :
    track_from "agent_1" unborn (apply_all calls fresh_manager).events
    ≡ track_of (get_status "agent_1" (apply_all calls fresh_manager))
log_walks_matrix_example = log_walks_matrix calls "agent_1"

abbrev row : AgentRow
row = record {
  tenant_id = "default";
  name = "architect";
  spec = "";
  spec_version = "1.0";
  hermes_profile = "sccsos";
  status = failed;
  session_id = some "ses_0";
  started_at = some 6;
  paused_at = none;
  terminated_at = none;
  error_count = 2;
  last_error = some "timeout";
}

row_there : get "agent_1" (apply_all calls fresh_manager).agents ≡ some row
unfolding program
row_there = refl
