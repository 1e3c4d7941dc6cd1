-- ===== src/Agents/Lifecycle.antt =====
-- sccsos/core/lifecycle.py: `LifecycleManager`, with the two tables of the database that it writes
-- (sccsos/core/db/crud.py: `insert_agent`, `update_agent_status`, `add_event`).
pub mod Diagram
pub mod Consistency
pub mod Status
pub mod History
mod Examples
use sccsos.Prelude.{
  ℕ, ◌+◌, String, ◌≡◌, refl, Bool, true, false, ◌&&◌, Option, none, some, List, [], ◌∷◌, ◌++◌,
  str_eq, if◌then◌else◌, keep,
}
use sccsos.Prelude.Dict.{Dict, get, put, values}
use sccsos.Prelude.Result.{Result, ok, err, Exec}

pub data AgentStatus : Type 0 where
  created running paused failed terminated : AgentStatus

-- The events that the public methods pass to `_transition`.
pub data Event : Type 0 where
  start pause fail stop resume restart : Event

-- `TRANSITIONS`
unfoldable pub transitions : AgentStatus → Event → Option AgentStatus
transitions created start = some running
transitions running pause = some paused
transitions running fail = some failed
transitions running stop = some terminated
transitions paused resume = some running
transitions paused stop = some terminated
transitions failed restart = some running
transitions failed stop = some terminated
transitions _ _ = none

-- The fields of `AgentSpec` that the manager stores; `json` is `json.dumps(spec.to_dict())`.
pub record AgentSpec : Type 0 where
  pub name : String
  pub version : String
  pub profile : String
  pub tenant_id : String
  pub json : String

pub record AgentInstance : Type 0 where
  pub id : String
  pub spec : AgentSpec
  pub status : AgentStatus

-- A row of the table `agents`, its columns that the manager writes.
pub record AgentRow : Type 0 where
  pub tenant_id : String
  pub name : String
  pub spec : String
  pub spec_version : String
  pub hermes_profile : String
  pub status : AgentStatus
  pub session_id : Option String
  pub started_at : Option ℕ
  pub paused_at : Option ℕ
  pub terminated_at : Option ℕ
  pub error_count : ℕ
  pub last_error : Option String

-- A row of the table `agent_events`, without the text of its detail.
pub record EventRow : Type 0 where
  pub agent_id : String
  pub event : AgentStatus

-- What the bus is given.
pub data BusEvent : Type 0 where
  agent_created agent_started agent_paused agent_resumed agent_stopped agent_failed
        agent_restarted :
      BusEvent

pub record Emitted : Type 0 where
  pub event : BusEvent
  pub agent_id : String
  pub status : AgentStatus

pub record Manager : Type 0 where
  pub instances : Dict AgentInstance
  pub agents : Dict AgentRow
  pub events : List EventRow
  pub emitted : List Emitted

pub data Error : Type 0 where
  transition_error : AgentStatus → Event → Error
  key_error : String → Error
  integrity_error : String → Error

-- `crud.add_event`
add_event : String → AgentStatus → Manager → Manager
add_event id status s = record s {
  events = s.events ++ record { agent_id = id; event = status } ∷ [];
}

emit : BusEvent → AgentInstance → Manager → Manager
emit event inst s = record s {
  emitted = s.emitted ++ record { event = event; agent_id = inst.id; status = inst.status } ∷ [];
}

-- `if session_id: updates["session_id"] = session_id`; an empty text counts as none.
truthy : Option String → Option String → Option String
truthy none old = old
truthy (some t) old = if str_eq t "" then old else some t

-- The columns that `update_agent_status` sets for the new status.
stamp : AgentStatus → ℕ → AgentRow → AgentRow
stamp running now r = record r { started_at = some now }
stamp paused now r = record r { paused_at = some now }
stamp terminated now r = record r { terminated_at = some now }
stamp failed now r = record r { error_count = r.error_count + 1 }
stamp created now r = r

pub update_row : AgentStatus → Option String → Option String → ℕ → AgentRow → AgentRow
unfolding truthy stamp
update_row status session error now r = stamp status now (record r {
  status = status;
  session_id = truthy session r.session_id;
  last_error = truthy error r.last_error;
})

update_found :
    String → AgentStatus → Option String → Option String → ℕ → Option AgentRow → Manager → Manager
unfolding update_row
update_found id status session error now none s = s
update_found id status session error now (some r) s = record s {
  agents = put id (update_row status session error now r) s.agents;
}

-- `crud.update_agent_status`: an UPDATE of a row that is not there changes nothing.
update_agent_status : String → AgentStatus → Option String → Option String → ℕ → Manager → Manager
unfolding update_found
update_agent_status id status session error now s =
    update_found id status session error now (get id s.agents) s

-- `_transition` on an instance: the new status is set on the object and logged.
moved : AgentInstance → Event → Option AgentStatus → Exec Error Manager AgentInstance
unfolding add_event
moved inst event none s = (err (transition_error inst.status event), s)
moved inst event (some status) s =
    let inst' : AgentInstance = record inst { status = status } in
    (ok inst', add_event inst.id status (record s { instances = put inst.id inst' s.instances }))

-- `_get_instance`, then `_transition`
enter : Event → String → Option AgentInstance → Exec Error Manager AgentInstance
unfolding moved
enter event id none s = (err (key_error id), s)
enter event id (some inst) s = moved inst event (transitions inst.status event) s

-- What a method does behind the transition: the row of the table, then the bus.
finish :
    BusEvent
    → String
    → Option String
    → Option String
    → ℕ
    → Result Error AgentInstance × Manager
    → Result Error AgentInstance × Manager
unfolding update_agent_status emit
finish bus id session error now (err e, s) = (err e, s)
finish bus id session error now (ok inst, s) =
    (ok inst, emit bus inst (update_agent_status id inst.status session error now s))

pub method :
    Event → BusEvent → String → Option String → Option String → ℕ → Exec Error Manager AgentInstance
unfolding enter finish
method event bus id session error now s =
    finish bus id session error now (enter event id (get id s.instances) s)

-- `session_id or f"ses_{uuid}"`, where the second is the text `fresh`
session_or : Option String → String → String
session_or none fresh = fresh
session_or (some t) fresh = if str_eq t "" then fresh else t

module _ (now : ℕ) where
  unfoldable pub start_agent : String → Option String → String → Exec Error Manager AgentInstance
  unfolding method session_or
  start_agent id session fresh =
      method start agent_started id (some (session_or session fresh)) none now

  unfoldable pub pause_agent : String → Exec Error Manager AgentInstance
  unfolding method
  pause_agent id = method pause agent_paused id none none now

  unfoldable pub resume_agent : String → Option String → String → Exec Error Manager AgentInstance
  unfolding method session_or
  resume_agent id session fresh =
      method resume agent_resumed id (some (session_or session fresh)) none now

  unfoldable pub stop_agent : String → Exec Error Manager AgentInstance
  unfolding method
  stop_agent id = method stop agent_stopped id none none now

  unfoldable pub fail_agent : String → String → Exec Error Manager AgentInstance
  unfolding method
  fail_agent id error = method fail agent_failed id none (some error) now

  unfoldable pub restart_agent : String → Option String → String → Exec Error Manager AgentInstance
  unfolding method session_or
  restart_agent id session fresh =
      method restart agent_restarted id (some (session_or session fresh)) none now

pub new_row : AgentSpec → AgentRow
new_row spec = record {
  tenant_id = spec.tenant_id;
  name = spec.name;
  spec = spec.json;
  spec_version = spec.version;
  hermes_profile = spec.profile;
  status = created;
  session_id = none;
  started_at = none;
  paused_at = none;
  terminated_at = none;
  error_count = 0;
  last_error = none;
}

created_in : String → AgentSpec → Option AgentRow → Exec Error Manager AgentInstance
unfolding add_event emit new_row
created_in id spec (some _) s = (err (integrity_error id), s)
created_in id spec none s =
    let inst : AgentInstance = record { id = id; spec = spec; status = created } in
    let stored : Manager =
      add_event id created (record s { agents = put id (new_row spec) s.agents }) in
    (ok inst, emit agent_created inst (record stored { instances = put id inst s.instances }))

-- `create`, under the id that it draws; the id is the primary key of the table.
unfoldable pub create : String → AgentSpec → Exec Error Manager AgentInstance
unfolding created_in
create id spec s = created_in id spec (get id s.agents) s

-- `_restore_instance`
unfoldable pub restore_instance : String → AgentSpec → AgentStatus → Manager → Manager
restore_instance id spec status s = record s {
  instances = put id (record { id = id; spec = spec; status = status }) s.instances;
}

unfoldable pub get_status : String → Manager → Option AgentStatus
get_status id s = elim (get id s.instances) [ none ↦ none | some inst ↦ some inst.status ]

unfoldable pub same_status : AgentStatus → AgentStatus → Bool
same_status created created = true
same_status running running = true
same_status paused paused = true
same_status failed failed = true
same_status terminated terminated = true
same_status _ _ = false

unfoldable pub list_instances : Option AgentStatus → Manager → List AgentInstance
unfolding same_status
list_instances none s = values s.instances
list_instances (some status) s = keep (λ i. same_status i.status status) (values s.instances)

abbrev pub fresh_manager : Manager
fresh_manager = record { instances = []; agents = []; events = []; emitted = [] }
