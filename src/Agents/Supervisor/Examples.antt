-- ===== src/Agents/Supervisor/Examples.antt =====
-- One supervised agent whose process dies.
use sccsos.Prelude.{
  ◌+◌, ◌-◌, ◌≤◌, ◌<◌, ◌≡◌, refl, true, false, some, none, [], ◌∷◌, List, ltb, arith,
}
use sccsos.Prelude.Dict.{get, put, remove}
use sccsos.Agents.Supervisor.{
  Config, AgentProcess, Heap, Supervisor, or_default, get_status, Action, do_register,
  do_unregister, change, do_look, do_decide, do_start, do_note, run, act, fresh_world, register,
  unregister, look, decide, note_restart, set_process, start_process,
}
use sccsos.Agents.Supervisor.Restarts.{count_of, restarts_bounded}
use sccsos.Agents.Supervisor.Revival.{turn, at_rest, turn_revives}

abbrev cfg : Config
cfg = record { max_restarts = 1; heartbeat_timeout = 30 }

abbrev heap : Heap
heap r = record { alive = false; paused = false }

abbrev supervisor : Supervisor
supervisor = record {
  processes = ("coder", 7) ∷ [];
  heartbeats = ("coder", 10) ∷ [];
  start_times = ("coder", 10) ∷ [];
  restart_counts = ("coder", 0) ∷ [];
}

abbrev crash : AgentProcess
crash = record { alive = false; paused = false }

abbrev twice_dead : List Action
twice_dead =
    do_register "coder" 7 10
    ∷ do_look "coder"
    ∷ do_decide
    ∷ do_start
    ∷ do_note 15
    ∷ change 7 crash
    ∷ do_look "coder"
    ∷ do_decide
    ∷ do_start
    ∷ do_note 20
    ∷ []

started_once : (run cfg twice_dead (fresh_world heap)).starts "coder" ≡ 1
unfolding run act register look decide note_restart set_process start_process get put
started_once = refl

-- An `unregister` between the start and its note leaves a count for a name that is not supervised.
abbrev overtaken : List Action
overtaken =
    do_register "coder" 7 10
    ∷ do_look "coder"
    ∷ do_decide
    ∷ do_start
    ∷ do_unregister "coder"
    ∷ do_note 15
    ∷ []

count_left : count_of "coder" ((run cfg overtaken (fresh_world heap)).supervisor) ≡ 1
unfolding run act register unregister look decide note_restart set_process start_process get put
    remove
count_left = refl

not_supervised : get "coder" ((run cfg overtaken (fresh_world heap)).supervisor.processes) ≡ none
unfolding run act register unregister look decide note_restart set_process start_process get put
    remove
not_supervised = refl

restarts_bounded_example :
    let w = run cfg twice_dead (fresh_world heap) in
    (w.starts "coder" ≤ cfg.max_restarts) × (count_of "coder" (w.supervisor) ≤ cfg.max_restarts)
restarts_bounded_example = restarts_bounded cfg twice_dead heap "coder"

there : get "coder" (supervisor.processes) ≡ some 7
unfolding get
there = refl

below : count_of "coder" supervisor < cfg.max_restarts
unfolding get
below = omega arith

absent : get "critic" (supervisor.processes) ≡ none
unfolding get
absent = refl

turn_revives_example :
    let w = run cfg (turn "coder" 20) (at_rest cfg "coder" 20 supervisor heap (λ _. 0)) in
    get_status cfg "coder" 25 (w.heap) (w.supervisor)
    ≡ some (record {
      name = "coder";
      alive = true;
      responsive =
          ltb (25 - or_default 0 (get "coder" (supervisor.heartbeats))) (cfg.heartbeat_timeout);
      restart_count = count_of "coder" supervisor + 1;
      paused = false;
      uptime_seconds = 25 - 20;
    })
turn_revives_example =
    turn_revives cfg "coder" 20 25 7 supervisor heap (λ _. 0) there refl refl below
