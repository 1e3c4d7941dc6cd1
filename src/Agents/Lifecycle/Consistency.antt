-- ===== src/Agents/Lifecycle/Consistency.antt =====
-- The objects in memory and the table of agents of `LifecycleManager`.
use sccsos.Prelude.{
  ℕ, String, ◌≡◌, refl, ◌⊎◌, inl, inr, Option, none, some, [], ◌∷◌, ◌++◌, str_eq, if◌then◌else◌,
  arith, eq_iff, Option-cases, Bool-cases, ap, subst, sym, ◌∙◌,
}
use sccsos.Prelude.Dict.{get, put, get-put}
use sccsos.Prelude.Result.{err}
use sccsos.Agents.Lifecycle.{
  AgentStatus, created, Event, start, pause, fail, stop, resume, restart, agent_started,
  agent_paused, agent_resumed, agent_stopped, agent_failed, agent_restarted, session_or,
  AgentInstance, AgentSpec, Manager, Error, method, BusEvent, start_agent, pause_agent,
  resume_agent, stop_agent, fail_agent, restart_agent, create, AgentRow, update_row, fresh_manager,
  new_row,
}
use sccsos.Agents.Lifecycle.Diagram.{
  Op, do_create, do_start, do_resume, do_restart, do_pause, do_stop, do_fail, apply, Moved,
  method-Moved, method_error,
}

-- Each object carries its key as its id, and its row is in the table with the status of the object.
pub record IsConsistent (s : Manager) : Type 0 where
  pub keyed : (id : String) (inst : AgentInstance) → get id s.instances ≡ some inst → inst.id ≡ id
  pub stored :
      (id : String) (inst : AgentInstance)
      → get id s.instances ≡ some inst
      → (row : AgentRow) × (get id s.agents ≡ some row) × (row.status ≡ inst.status)

pub fresh-IsConsistent : IsConsistent fresh_manager
unfolding get
fresh-IsConsistent = record {
  keyed = λ id inst h. absurd (ground arith);
  stored = λ id inst h. absurd (ground arith);
}

status-update_row :
    (next : AgentStatus) (session error : Option String) (now : ℕ) (row : AgentRow)
    → (update_row next session error now row).status ≡ next
unfolding update_row
status-update_row next session error now row = ground arith

status-new_row : (spec : AgentSpec) → (new_row spec).status ≡ created
unfolding new_row
status-new_row spec = refl

module _ (e : Event) (id : String) (session error : Option String) (now : ℕ) (s s' : Manager) where
  Moved-IsConsistent : Moved e id session error now s s' → IsConsistent s → IsConsistent s'
  Moved-IsConsistent mv c = record { keyed = keyed; stored = stored }
    where
      open mv use {inst, next, found, instances, agents}

      same : inst.id ≡ id
      same = c.keyed id inst found

      inst' : AgentInstance
      inst' = record inst { status = next }

      at :
          (j : String)
          → get j s'.instances ≡ (if str_eq inst.id j then some inst' else get j s.instances)
      at j = ap (get j) instances ∙ get-put inst.id j inst' s.instances

      keyed : (j : String) (i : AgentInstance) → get j s'.instances ≡ some i → i.id ≡ j
      keyed j i h = ground (arith, at j, c.keyed j i, eq_iff inst.id j)

      row : AgentRow
      row = (c.stored id inst found).0

      row' : AgentRow
      row' = update_row next session error now row

      rows : (j : String) → get j s'.agents ≡ (if str_eq id j then some row' else get j s.agents)
      rows j = ap (get j) (agents row (c.stored id inst found).1) ∙ get-put id j row' s.agents

      stored :
          (j : String) (i : AgentInstance)
          → get j s'.instances ≡ some i
          → (r : AgentRow) × (get j s'.agents ≡ some r) × (r.status ≡ i.status)
      stored j i h = elim (Bool-cases (str_eq id j)) [
        | inl here ↦ (
          row',
          ground (arith, rows j, here),
          ground (arith, status-update_row next session error now row, at j, same, here),
        )
        | inr there ↦
            let old : get j s.instances ≡ some i = ground (arith, at j, same, there) in
            let (r, a, b) = c.stored j i old in (r, ground (arith, rows j, there, a), b)
      ]

pub method-IsConsistent :
    (e : Event) (b : BusEvent) (id : String) (session error : Option String) (now : ℕ) (s : Manager)
    → IsConsistent s
    → IsConsistent (method e b id session error now s).1
method-IsConsistent e b id session error now s c = elim (method-Moved e b id session error now s) [
  | inl same ↦ subst IsConsistent (sym same) c
  | inr mv ↦ Moved-IsConsistent e id session error now s (method e b id session error now s).1 mv c
]

-- `create` that is let through adds a row and an object, both CREATED.
pub record Created (id : String) (spec : AgentSpec) (s s' : Manager) : Type 0 where
  pub unused : get id s.agents ≡ none
  pub instances :
      s'.instances ≡ put id (record { id = id; spec = spec; status = created }) s.instances
  pub agents : s'.agents ≡ put id (new_row spec) s.agents
  pub events : s'.events ≡ s.events ++ record { agent_id = id; event = created } ∷ []

pub create-Created :
    (id : String) (spec : AgentSpec) (s : Manager)
    → ((create id spec s).1 ≡ s) ⊎ Created id spec s (create id spec s).1
unfolding create
create-Created id spec s = elim (Option-cases (get id s.agents)) [
  | inr (row, taken) ↦ inl (ground (arith, taken))
  | inl unused ↦ inr (record {
    unused = unused;
    instances = ground (arith, unused);
    agents = ground (arith, unused);
    events = ground (arith, unused);
  })
]

Created-IsConsistent :
    (id : String) (spec : AgentSpec) (s s' : Manager)
    → Created id spec s s'
    → IsConsistent s
    → IsConsistent s'
Created-IsConsistent id spec s s' mk c = record { keyed = keyed; stored = stored }
  where
    inst : AgentInstance
    inst = record { id = id; spec = spec; status = created }

    at : (j : String) → get j s'.instances ≡ (if str_eq id j then some inst else get j s.instances)
    at j = ap (get j) mk.instances ∙ get-put id j inst s.instances

    rows :
        (j : String)
        → get j s'.agents ≡ (if str_eq id j then some (new_row spec) else get j s.agents)
    rows j = ap (get j) mk.agents ∙ get-put id j (new_row spec) s.agents

    keyed : (j : String) (i : AgentInstance) → get j s'.instances ≡ some i → i.id ≡ j
    keyed j i h = ground (arith, at j, c.keyed j i, eq_iff id j)

    stored :
        (j : String) (i : AgentInstance)
        → get j s'.instances ≡ some i
        → (r : AgentRow) × (get j s'.agents ≡ some r) × (r.status ≡ i.status)
    stored j i h = elim (Bool-cases (str_eq id j)) [
      | inl here ↦ (
        new_row spec,
        ground (arith, rows j, here),
        ground (arith, at j, here, status-new_row spec),
      )
      | inr there ↦
          let (r, a, b) = c.stored j i (ground (arith, at j, there)) in
          (r, ground (arith, rows j, there, a), b)
    ]

create_error :
    (id : String) (spec : AgentSpec) (s : Manager) {x : Error}
    → (create id spec s).0 ≡ err x
    → (create id spec s).1 ≡ s
unfolding create
create_error id spec s h = ground arith

-- The three things that a call can do to the manager.
pub data Change (now : ℕ) (s s' : Manager) : Type 0 where
  unchanged : s' ≡ s → Change now s s'
  made : (id : String) (spec : AgentSpec) → Created id spec s s' → Change now s s'
  moved :
      (e : Event) (id : String) (session error : Option String)
      → Moved e id session error now s s'
      → Change now s s'

method-Change :
    (e : Event) (b : BusEvent) (id : String) (session error : Option String) (now : ℕ) (s : Manager)
    → Change now s (method e b id session error now s).1
method-Change e b id session error now s = elim (method-Moved e b id session error now s) [
  | inl same ↦ unchanged same
  | inr mv ↦ moved e id session error mv
]

pub apply-Change : (now : ℕ) (op : Op) (s : Manager) → Change now s (apply now op s).1
unfolding apply start_agent resume_agent restart_agent pause_agent stop_agent fail_agent
apply-Change now (do_create id spec) s = elim (create-Created id spec s) [
  | inl same ↦ unchanged same
  | inr mk ↦ made id spec mk
]
apply-Change now (do_start id session fresh) s =
    method-Change start agent_started id (some (session_or session fresh)) none now s
apply-Change now (do_resume id session fresh) s =
    method-Change resume agent_resumed id (some (session_or session fresh)) none now s
apply-Change now (do_restart id session fresh) s =
    method-Change restart agent_restarted id (some (session_or session fresh)) none now s
apply-Change now (do_pause id) s = method-Change pause agent_paused id none none now s
apply-Change now (do_stop id) s = method-Change stop agent_stopped id none none now s
apply-Change now (do_fail id error) s = method-Change fail agent_failed id none (some error) now s

pub Change-IsConsistent :
    {now : ℕ} {s s' : Manager} → Change now s s' → IsConsistent s → IsConsistent s'
Change-IsConsistent (unchanged same) c = subst IsConsistent (sym same) c
Change-IsConsistent {s = s} {s' = s'} (made id spec mk) c = Created-IsConsistent id spec s s' mk c
Change-IsConsistent {now} {s} {s'} (moved e id session error mv) c =
    Moved-IsConsistent e id session error now s s' mv c

-- Every call of a public method, let through or refused, keeps the objects in memory and the table
-- of agents in agreement.
pub apply-IsConsistent :
    (now : ℕ) (op : Op) (s : Manager) → IsConsistent s → IsConsistent (apply now op s).1
apply-IsConsistent now op s c = Change-IsConsistent (apply-Change now op s) c

-- A call that raises leaves the objects, both tables and the bus as they were.
pub apply_error :
    (now : ℕ) (op : Op) (s : Manager) (x : Error)
    → (apply now op s).0 ≡ err x
    → (apply now op s).1 ≡ s
unfolding apply start_agent resume_agent restart_agent pause_agent stop_agent fail_agent
apply_error now (do_create id spec) s x h = create_error id spec s h
apply_error now (do_start id session fresh) s x h =
    method_error start agent_started id (some (session_or session fresh)) none now s h
apply_error now (do_resume id session fresh) s x h =
    method_error resume agent_resumed id (some (session_or session fresh)) none now s h
apply_error now (do_restart id session fresh) s x h =
    method_error restart agent_restarted id (some (session_or session fresh)) none now s h
apply_error now (do_pause id) s x h = method_error pause agent_paused id none none now s h
apply_error now (do_stop id) s x h = method_error stop agent_stopped id none none now s h
apply_error now (do_fail id error) s x h =
    method_error fail agent_failed id none (some error) now s h
