-- ===== src/Agents/Supervisor.antt =====
-- sccsos/core/supervisor.py: `LocalSupervisor`, with `ProcessStatus` of
-- sccsos/core/supervisor_base.py and the two flags of `AgentProcess` of sccsos/core/agent_runner.py
-- that it reads. Process objects are shared with the rest of the program: the supervisor holds their
-- references, and `Heap` says what an object is like. Instants are natural numbers.
pub mod Restarts
pub mod Revival
mod Examples
use sccsos.Prelude.{
  ℕ, ◌+◌, ◌-◌, String, Bool, true, false, not, ◌&&◌, Option, none, some, List, [], ◌∷◌,
  if◌then◌else◌, ltb, ◌==◌, str_eq,
}
use sccsos.Prelude.Dict.{Dict, get, put, remove, keys}

pub record Config : Type 0 where
  pub max_restarts : ℕ
  pub heartbeat_timeout : ℕ

-- `is_alive` and `is_paused` of an `AgentProcess`
pub record AgentProcess : Type 0 where
  pub alive : Bool
  pub paused : Bool

abbrev pub Heap : Type 0
Heap = ℕ → AgentProcess

-- `AgentProcess.start`, in the two flags
unfoldable pub start_process : AgentProcess → AgentProcess
start_process p = if p.alive then p else record { alive = true; paused = false }

unfoldable pub set_process : ℕ → AgentProcess → Heap → Heap
set_process ref p heap r = if r == ref then p else heap r

pub record Supervisor : Type 0 where
  pub processes : Dict ℕ
  pub heartbeats : Dict ℕ
  pub start_times : Dict ℕ
  pub restart_counts : Dict ℕ

-- `d.get(k, default)`
abbrev pub or_default : ℕ → Option ℕ → ℕ
or_default d none = d
or_default d (some n) = n

abbrev pub zero_if_new : String → Option ℕ → Dict ℕ → Dict ℕ
zero_if_new name none counts = put name 0 counts
zero_if_new name (some n) counts = counts

unfoldable pub register : String → ℕ → ℕ → Supervisor → Supervisor
register name ref now s = record {
  processes = put name ref (s.processes);
  heartbeats = put name now (s.heartbeats);
  start_times = put name now (s.start_times);
  restart_counts = zero_if_new name (get name (s.restart_counts)) (s.restart_counts);
}

unfoldable pub unregister : String → Supervisor → Supervisor
unregister name s = record {
  processes = remove name (s.processes);
  heartbeats = remove name (s.heartbeats);
  start_times = remove name (s.start_times);
  restart_counts = remove name (s.restart_counts);
}

abbrev pub beaten : String → ℕ → Option ℕ → Dict ℕ → Dict ℕ
beaten name now none beats = beats
beaten name now (some _) beats = put name now beats

unfoldable pub heartbeat : String → ℕ → Supervisor → Supervisor
heartbeat name now s = record s {
  heartbeats = beaten name now (get name (s.heartbeats)) (s.heartbeats);
}

pub record ProcessStatus : Type 0 where
  pub name : String
  pub alive : Bool
  pub responsive : Bool
  pub restart_count : ℕ
  pub paused : Bool
  pub uptime_seconds : ℕ

abbrev pub status_of : Config → String → ℕ → Heap → Supervisor → Option ℕ → Option ProcessStatus
status_of cfg name now heap s none = none
status_of cfg name now heap s (some ref) = some (record {
  name = name;
  alive = (heap ref).alive;
  responsive = ltb (now - or_default 0 (get name (s.heartbeats))) (cfg.heartbeat_timeout);
  restart_count = or_default 0 (get name (s.restart_counts));
  paused = (heap ref).paused;
  uptime_seconds = now - or_default now (get name (s.start_times));
})

-- `get_status` and `_get_status_locked`
unfoldable pub get_status : Config → String → ℕ → Heap → Supervisor → Option ProcessStatus
get_status cfg name now heap s = status_of cfg name now heap s (get name (s.processes))

abbrev pub statuses : Config → ℕ → Heap → Supervisor → List String → List ProcessStatus
statuses cfg now heap s [] = []
statuses cfg now heap s (n ∷ ns) =
    let rest = statuses cfg now heap s ns in
    elim (get_status cfg n now heap s) [ none ↦ rest | some x ↦ x ∷ rest ]

unfoldable pub list_status : Config → ℕ → Heap → Supervisor → List ProcessStatus
list_status cfg now heap s = statuses cfg now heap s (keys (s.processes))

-- Where the monitor thread stands in its loop, between two accesses to what it shares: at the next
-- name, with a process that it has seen dead, with the restart count that it has read, and with
-- the process started and the new count to be written.
pub data Phase : Type 0 where
  idle : Phase
  seen_dead : (name : String) (ref : ℕ) → Phase
  counted : (name : String) (ref count : ℕ) → Phase
  restarted : (name : String) (count : ℕ) → Phase

-- The first locked block of the loop's body; an unresponsive process is only logged.
abbrev pub look_at : String → Heap → Option ℕ → Phase
look_at name heap none = idle
look_at name heap (some ref) =
    let p = heap ref in if not (p.alive) && not (p.paused) then seen_dead name ref else idle

unfoldable pub look : String → Heap → Supervisor → Phase
look name heap s = look_at name heap (get name (s.processes))

-- `count < self._max_restarts`
unfoldable pub decide : Config → String → ℕ → Supervisor → Phase
decide cfg name ref s =
    let count = or_default 0 (get name (s.restart_counts)) in
    if ltb count (cfg.max_restarts) then counted name ref count else idle

-- The second locked block
unfoldable pub note_restart : String → ℕ → ℕ → Supervisor → Supervisor
note_restart name count now s = record s {
  restart_counts = put name (count + 1) (s.restart_counts);
  start_times = put name now (s.start_times);
}

-- The program around one monitor thread. `starts` counts the monitor's calls of `start` for a name
-- since the last `unregister` of the name.
pub record World : Type 0 where
  pub supervisor : Supervisor
  pub heap : Heap
  pub phase : Phase
  pub starts : String → ℕ

-- What a thread does next. `change` is any change of a process object from outside, a crash, a
-- pause or a start; the last four are the monitor's.
pub data Action : Type 0 where
  do_register : (name : String) (ref now : ℕ) → Action
  do_unregister : (name : String) → Action
  do_heartbeat : (name : String) (now : ℕ) → Action
  change : (ref : ℕ) → AgentProcess → Action
  do_look : (name : String) → Action
  do_decide do_start : Action
  do_note : (now : ℕ) → Action

abbrev pub set_starts : String → ℕ → (String → ℕ) → String → ℕ
set_starts name n f k = if str_eq name k then n else f k

-- The monitor's next step from a phase; an action that does not fit the phase is none.
abbrev pub monitor : Config → Action → Phase → World → World
monitor cfg (do_look name) idle w = record w { phase = look name (w.heap) (w.supervisor) }
monitor cfg do_decide (seen_dead name ref) w = record w {
  phase = decide cfg name ref (w.supervisor);
}
monitor cfg do_start (counted name ref count) w = record w {
  heap = set_process ref (start_process (w.heap ref)) (w.heap);
  phase = restarted name count;
  starts = set_starts name (w.starts name + 1) (w.starts);
}
monitor cfg (do_note now) (restarted name count) w = record w {
  supervisor = note_restart name count now (w.supervisor);
  phase = idle;
}
monitor cfg _ _ w = w

unfoldable pub act : Config → Action → World → World
act cfg (do_register name ref now) w = record w {
  supervisor = register name ref now (w.supervisor);
}
act cfg (do_unregister name) w = record w {
  supervisor = unregister name (w.supervisor);
  starts = set_starts name 0 (w.starts);
}
act cfg (do_heartbeat name now) w = record w { supervisor = heartbeat name now (w.supervisor) }
act cfg (change ref p) w = record w { heap = set_process ref p (w.heap) }
act cfg (do_look name) w = monitor cfg (do_look name) (w.phase) w
act cfg do_decide w = monitor cfg do_decide (w.phase) w
act cfg do_start w = monitor cfg do_start (w.phase) w
act cfg (do_note now) w = monitor cfg (do_note now) (w.phase) w

unfoldable pub run : Config → List Action → World → World
run cfg [] w = w
run cfg (a ∷ rest) w = run cfg rest (act cfg a w)

abbrev pub fresh_world : Heap → World
fresh_world heap = record {
  supervisor = record { processes = []; heartbeats = []; start_times = []; restart_counts = [] };
  heap = heap;
  phase = idle;
  starts = λ _. 0;
}
