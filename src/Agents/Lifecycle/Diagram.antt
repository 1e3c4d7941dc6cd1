-- ===== src/Agents/Lifecycle/Diagram.antt =====
-- The transition matrix, and what one call of a method does to the statuses.
use sccsos.Prelude.{
  ℕ, String, ◌≡◌, ◌⊎◌, inl, inr, Option, none, some, [], ◌∷◌, str_eq, if◌then◌else◌, arith, eq_iff,
  Option-cases, ◌++◌,
}
use sccsos.Prelude.Dict.{get, put, get-put}
use sccsos.Prelude.Result.{err, Exec}
use sccsos.Agents.Lifecycle.{
  AgentStatus, Event, start, pause, fail, stop, resume, restart, transitions, AgentInstance,
  AgentSpec, Manager, Error, method, BusEvent, get_status, start_agent, pause_agent, resume_agent,
  stop_agent, fail_agent, restart_agent, create, update_row, AgentRow,
}

-- A call of a public method, with its arguments and the texts that `uuid4` gives it.
pub data Op : Type 0 where
  do_create : (id : String) → AgentSpec → Op
  do_start do_resume do_restart : (id : String) → Option String → (fresh : String) → Op
  do_pause do_stop : (id : String) → Op
  do_fail : (id error : String) → Op

unfoldable pub apply : ℕ → Op → Exec Error Manager AgentInstance
apply now (do_create id spec) = create id spec
apply now (do_start id session fresh) = start_agent now id session fresh
apply now (do_resume id session fresh) = resume_agent now id session fresh
apply now (do_restart id session fresh) = restart_agent now id session fresh
apply now (do_pause id) = pause_agent now id
apply now (do_stop id) = stop_agent now id
apply now (do_fail id error) = fail_agent now id error

-- The agent that a call is about, and the event that it passes on; none for `create`.
abbrev pub target : Op → String
target (do_create id _) = id
target (do_start id _ _) = id
target (do_resume id _ _) = id
target (do_restart id _ _) = id
target (do_pause id) = id
target (do_stop id) = id
target (do_fail id _) = id

abbrev pub event_of : Op → Option Event
event_of (do_create _ _) = none
event_of (do_start _ _ _) = some start
event_of (do_resume _ _ _) = some resume
event_of (do_restart _ _ _) = some restart
event_of (do_pause _) = some pause
event_of (do_stop _) = some stop
event_of (do_fail _ _) = some fail

-- What a call does to an agent's status, by the matrix alone.
abbrev pub after_event : Event → Option AgentStatus → Option AgentStatus
after_event e none = none
after_event e (some status) = elim (transitions status e) [
  | none ↦ some status
  | some next ↦ some next
]

-- A method that raises leaves the manager and both tables as they were.
pub method_error :
    (e : Event) (b : BusEvent) (id : String) (session error : Option String) (now : ℕ) (s : Manager)
    {x : Error}
    → (method e b id session error now s).0 ≡ err x
    → (method e b id session error now s).1 ≡ s
unfolding method
method_error e b id session error now s h = ground arith

-- A call that is let through moves one agent along one edge of the matrix, in the objects, in the
-- table of agents, and in the log.
pub record Moved (e : Event) (id : String) (session error : Option String) (now : ℕ)
    (s s' : Manager) : Type 0 where
  pub inst : AgentInstance
  pub next : AgentStatus
  pub found : get id s.instances ≡ some inst
  pub edge : transitions inst.status e ≡ some next
  pub instances : s'.instances ≡ put inst.id (record inst { status = next }) s.instances
  pub events : s'.events ≡ s.events ++ record { agent_id = inst.id; event = next } ∷ []
  pub agents :
      (row : AgentRow)
      → get id s.agents ≡ some row
      → s'.agents ≡ put id (update_row next session error now row) s.agents

pub method-Moved :
    (e : Event) (b : BusEvent) (id : String) (session error : Option String) (now : ℕ) (s : Manager)
    → ((method e b id session error now s).1 ≡ s)
      ⊎ Moved e id session error now s (method e b id session error now s).1
unfolding method
method-Moved e b id session error now s = elim (Option-cases (get id s.instances)) [
  | inl gone ↦ inl (ground (arith, gone))
  | inr (inst, found) ↦ elim (Option-cases (transitions inst.status e)) [
    | inl no_edge ↦ inl (ground (arith, found, no_edge))
    | inr (next, edge) ↦ inr (record {
      inst = inst;
      next = next;
      found = found;
      edge = edge;
      instances = ground (arith, found, edge);
      events = ground (arith, found, edge);
      agents = λ row there. ground (arith, found, edge, there);
    })
  ]
]

pub method-status :
    (e : Event) (b : BusEvent) (id : String) (session error : Option String) (now : ℕ) (s : Manager)
    (j : String)
    → ((i : String) (inst : AgentInstance) → get i s.instances ≡ some inst → inst.id ≡ i)
    → get_status j (method e b id session error now s).1
      ≡ (if str_eq id j then after_event e (get_status j s) else get_status j s)
unfolding method get_status
method-status e b id session error now s j keyed = elim (Option-cases (get id s.instances)) [
  | inl gone ↦ ground (arith, gone, eq_iff id j)
  | inr (inst, found) ↦ elim (Option-cases (transitions inst.status e)) [
    | inl no_edge ↦ ground (arith, found, no_edge, eq_iff id j)
    | inr (next, edge) ↦ ground (
      arith,
      found,
      edge,
      keyed id inst found,
      get-put inst.id j (record inst { status = next }) s.instances,
      eq_iff id j,
    )
  ]
]
