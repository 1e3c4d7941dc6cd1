-- ===== src/Agents/DistributedSupervisor.antt =====
-- sccsos/core/supervisor_distributed.py: `DistributedSupervisor`, one replica of it and the table that
-- the replicas share. The body of the monitor's loop for one name runs under the lock, so it is one step
-- (`visit`); between the steps anything else may happen. Process objects are as for `LocalSupervisor`.
-- An instant is a natural number in tenths of a second, as `heartbeat` counts them. Starting and joining
-- the monitor thread is left out, and the table is there. `register` and `unregister` write to the table
-- behind their locked blocks; no method reads it, so they are one step each with their write.
pub mod Rounds
pub mod Shared
mod Examples
use sccsos.Prelude.{
  ℕ, ◌+◌, ◌-◌, ◌%◌, String, Bool, true, false, not, ◌&&◌, Option, none, some, List, [], ◌∷◌,
  if◌then◌else◌, ltb, ◌==◌,
}
use sccsos.Prelude.Dict.{Dict, get, put, remove, keys}
use sccsos.Agents.Supervisor.{
  Config, AgentProcess, Heap, start_process, set_process, or_default, zero_if_new, ProcessStatus,
}

-- A row of `supervisor_heartbeats`
pub record HeartbeatRow : Type 0 where
  pub last_heartbeat : ℕ
  pub start_time : ℕ

pub record Replica : Type 0 where
  pub processes : Dict ℕ
  pub restart_counts : Dict ℕ
  pub local_heartbeats : Dict ℕ
  pub heap : Heap

abbrev pub Table : Type 0
Table = Dict HeartbeatRow

-- `_write_heartbeat`
unfoldable pub write_heartbeat : String → ℕ → Table → Table
write_heartbeat name now table = put name (record { last_heartbeat = now; start_time = now }) table

-- The locked block reads the clock, and the write of the heartbeat behind it reads it again.
unfoldable pub register : String → ℕ → ℕ → ℕ → Replica × Table → Replica × Table
unfolding write_heartbeat
register name ref now later (r, table) = (
  record r {
    processes = put name ref r.processes;
    local_heartbeats = put name now r.local_heartbeats;
    restart_counts = zero_if_new name (get name r.restart_counts) r.restart_counts;
  },
  write_heartbeat name later table,
)

unfoldable pub unregister : String → Replica × Table → Replica × Table
unregister name (r, table) = (
  record r {
    processes = remove name r.processes;
    local_heartbeats = remove name r.local_heartbeats;
    restart_counts = remove name r.restart_counts;
  },
  remove name table,
)

-- `heartbeat`, behind the test that the name is there
beaten : String → ℕ → Option ℕ → Replica × Table → Replica × Table
unfolding write_heartbeat
beaten name now none (r, table) = (r, table)
beaten name now (some _) (r, table) = (
  record r { local_heartbeats = put name now r.local_heartbeats },
  if now % 3 == 0 then write_heartbeat name now table else table,
)

unfoldable pub heartbeat : String → ℕ → Replica × Table → Replica × Table
unfolding beaten
heartbeat name now (r, table) = beaten name now (get name r.local_heartbeats) (r, table)

abbrev pub status_of : Config → String → ℕ → Replica → Option ℕ → Option ProcessStatus
status_of cfg name now r none = none
status_of cfg name now r (some ref) = some (record {
  name = name;
  alive = (r.heap ref).alive;
  responsive = ltb (now - or_default 0 (get name r.local_heartbeats)) cfg.heartbeat_timeout;
  restart_count = or_default 0 (get name r.restart_counts);
  paused = (r.heap ref).paused;
  uptime_seconds = now - or_default now (get name r.local_heartbeats);
})

-- `get_status` and `_get_status_locked`
unfoldable pub get_status : Config → String → ℕ → Replica → Option ProcessStatus
get_status cfg name now r = status_of cfg name now r (get name r.processes)

abbrev pub statuses : Config → ℕ → Replica → List String → List ProcessStatus
statuses cfg now r [] = []
statuses cfg now r (n ∷ ns) =
    let rest = statuses cfg now r ns in
    elim (get_status cfg n now r) [ none ↦ rest | some x ↦ x ∷ rest ]

unfoldable pub list_status : Config → ℕ → Replica → List ProcessStatus
list_status cfg now r = statuses cfg now r (keys r.processes)

-- `not alive and not paused`, with a restart left
abbrev pub is_due : Config → String → ℕ → Replica → Bool
is_due cfg name ref r =
    (not (r.heap ref).alive && not (r.heap ref).paused)
    && ltb (or_default 0 (get name r.restart_counts)) cfg.max_restarts

-- `proc.start()`, and the new count
unfoldable pub restart : String → ℕ → Replica → Replica
restart name ref r = record r {
  heap = set_process ref (start_process (r.heap ref)) r.heap;
  restart_counts = put name (or_default 0 (get name r.restart_counts) + 1) r.restart_counts;
}

visit_found : Config → String → Option ℕ → Replica → Bool × Replica
unfolding restart
visit_found cfg name none r = (false, r)
visit_found cfg name (some ref) r =
    if is_due cfg name ref r then (true, restart name ref r) else (false, r)

-- The body of the loop over the names, and whether it starts a process; an unresponsive process is only
-- logged.
unfoldable pub visit : Config → String → Replica → Bool × Replica
unfolding visit_found
visit cfg name r = visit_found cfg name (get name r.processes) r

-- One round of the monitor with nothing in between
unfoldable pub visit_all : Config → List String → Replica → Replica
unfolding visit
visit_all cfg [] r = r
visit_all cfg (n ∷ ns) r = visit_all cfg ns ((visit cfg n r).1)

-- What can happen to a replica and to the table
pub data Step : Type 0 where
  registers : (name : String) → (ref now later : ℕ) → Step
  unregisters : (name : String) → Step
  beats : (name : String) → (now : ℕ) → Step
  visits : (name : String) → Step
  process_changes : (ref : ℕ) → AgentProcess → Step
  others_write : Table → Step

pub record World : Type 0 where
  pub replica : Replica
  pub table : Table
  pub starts : Dict ℕ

abbrev pub with_pair : World → Replica × Table → World
with_pair w (r, table) = record w { replica = r; table = table }

-- `starts` counts the monitor's starts for a name since the name was last unregistered.
abbrev pub noted : String → Bool × Replica → World → World
noted name (true, r) w = record w {
  replica = r;
  starts = put name (or_default 0 (get name w.starts) + 1) w.starts;
}
noted name (false, r) w = record w { replica = r }

unfoldable pub act : Config → Step → World → World
unfolding register unregister heartbeat visit
act cfg (registers name ref now later) w =
    with_pair w (register name ref now later (w.replica, w.table))
act cfg (unregisters name) w = record (with_pair w (unregister name (w.replica, w.table))) {
  starts = remove name w.starts;
}
act cfg (beats name now) w = with_pair w (heartbeat name now (w.replica, w.table))
act cfg (visits name) w = noted name (visit cfg name w.replica) w
act cfg (process_changes ref p) w = record w {
  replica = record (w.replica) { heap = set_process ref p w.replica.heap };
}
act cfg (others_write table) w = record w { table = table }

unfoldable pub run : Config → List Step → World → World
unfolding act
run cfg [] w = w
run cfg (s ∷ ss) w = run cfg ss (act cfg s w)
