-- ===== src/Agents/DistributedSupervisor/Examples.antt =====
-- Two agents, one of them dead, and a replica that writes into the shared table.
use sccsos.Prelude.{◌≡◌, ◌≤◌, refl, true, false, List, [], ◌∷◌}
use sccsos.Prelude.Dict.{get, put}
use sccsos.Agents.Supervisor.{Config, AgentProcess, Heap, set_process, start_process}
use sccsos.Agents.DistributedSupervisor.{
  Replica, Step, registers, beats, visits, process_changes, others_write, run, visit_all,
}
use sccsos.Agents.DistributedSupervisor.Shared.{counted, fresh, own, starts_bounded, table_unread}
use sccsos.Agents.DistributedSupervisor.Rounds.{IsDue, is_alive, round_revives}

abbrev cfg : Config
cfg = record { max_restarts = 1; heartbeat_timeout = 600 }

abbrev dead : AgentProcess
dead = record { alive = false; paused = false }

abbrev heap : Heap
heap ref = dead

abbrev steps : List Step
steps =
    registers "architect" 0 10 11
    ∷ others_write (("architect", record { last_heartbeat = 99; start_time = 99 }) ∷ [])
    ∷ visits "architect"
    ∷ beats "architect" 12
    ∷ process_changes 0 dead
    ∷ visits "architect"
    ∷ []

program : Unit {0}
unfolding run get put set_process start_process visit_all
program = tt

-- The second death finds no restart left.
given_up : is_alive 0 (run cfg steps (fresh heap [])).replica ≡ false
unfolding program
given_up = refl

starts_bounded_example : counted "architect" (run cfg steps (fresh heap [])).starts ≤ 1
starts_bounded_example = starts_bounded cfg heap [] steps "architect"

table_unread_example :
    (run cfg steps (fresh heap [])).replica ≡ (run cfg (own steps) (fresh heap [])).replica
table_unread_example = table_unread cfg steps (fresh heap []) (fresh heap []) refl

abbrev two : Replica
two = record {
  processes = ("architect", 0) ∷ ("coder", 1) ∷ [];
  restart_counts = [];
  local_heartbeats = [];
  heap = heap;
}

coder-IsDue : IsDue cfg "coder" 1 two
unfolding program
coder-IsDue = record { supervised = refl; due = refl }

round_revives_example : is_alive 1 (visit_all cfg ("architect" ∷ "coder" ∷ []) two) ≡ true
round_revives_example =
    round_revives cfg ("architect" ∷ "coder" ∷ []) "coder" 1 two refl coder-IsDue
