-- ===== src/Agents/Lifecycle/History.antt =====
-- The log of an agent that `LifecycleManager` writes, read as a walk through the matrix.
use sccsos.Prelude.{
  ℕ, ◌+◌, String, ◌≡◌, refl, Bool, false, ◌&&◌, ◌||◌, inl, inr, Option, none, some, List, [], ◌∷◌,
  ◌++◌, str_eq, if◌then◌else◌, arith, eq_iff, Option-cases, Bool-cases, ap, subst, sym, ◌∙◌, bit,
}
use sccsos.Prelude.Dict.{get, get-put}
use sccsos.Agents.Lifecycle.{
  AgentStatus, created, failed, Event, start, pause, fail, stop, resume, restart, transitions,
  AgentInstance, AgentSpec, Manager, EventRow, get_status, AgentRow, update_row, new_row,
  fresh_manager, same_status,
}
use sccsos.Agents.Lifecycle.Diagram.{Op, apply, Moved}
use sccsos.Agents.Lifecycle.Consistency.{
  IsConsistent, fresh-IsConsistent, Created, Change, unchanged, made, moved, Change-IsConsistent,
  apply-Change,
}

-- Where a reader of the log is: before the agent's first row, at a status, or off the matrix.
pub data Track : Type 0 where
  unborn : Track
  at : AgentStatus → Track
  broken : Track

abbrev leads : AgentStatus → AgentStatus → Event → Bool
leads from to e = elim (transitions from e) [ none ↦ false | some next ↦ same_status next to ]

-- Some event leads from one status to the other.
edge : AgentStatus → AgentStatus → Bool
unfolding transitions same_status
edge from to =
    leads from to start
    || leads from to pause
    || leads from to fail
    || leads from to stop
    || leads from to resume
    || leads from to restart

pub advance : Track → AgentStatus → Track
unfolding edge
advance unborn created = at created
advance unborn _ = broken
advance (at from) to = if edge from to then at to else broken
advance broken _ = broken

-- Reading the rows of one agent in the order in which they were inserted.
unfoldable pub track_from : String → Track → List EventRow → Track
unfolding advance
track_from id t [] = t
track_from id t (r ∷ rs) = track_from id (if str_eq r.agent_id id then advance t r.event else t) rs

track_from-append :
    (id : String) (t : Track) (rs : List EventRow) (r : EventRow)
    → track_from id t (rs ++ r ∷ [])
      ≡ (if str_eq r.agent_id id then advance (track_from id t rs) r.event else track_from id t rs)
unfolding track_from
track_from-append id t [] r = refl
track_from-append id t (x ∷ rs) r =
    track_from-append id (if str_eq x.agent_id id then advance t x.event else t) rs r

-- The number of failures in the log of an agent.
unfoldable pub failures : String → List EventRow → ℕ
unfolding same_status
failures id [] = 0
failures id (r ∷ rs) = bit (str_eq r.agent_id id && same_status r.event failed) + failures id rs

failures-append :
    (id : String) (rs : List EventRow) (r : EventRow)
    → failures id (rs ++ r ∷ [])
      ≡ failures id rs + bit (str_eq r.agent_id id && same_status r.event failed)
unfolding failures
failures-append id [] r = ground arith
failures-append id (x ∷ rs) r = ground (arith, failures-append id rs r)

edge-transitions :
    (from to : AgentStatus) (e : Event)
    → transitions from e ≡ some to
    → advance (at from) to ≡ at to
unfolding advance transitions
edge-transitions from to e h = ground arith

abbrev pub track_of : Option AgentStatus → Track
track_of none = unborn
track_of (some status) = at status

-- The log tells the status of each agent, and the table counts its failures.
pub record IsLogged (s : Manager) : Type 0 where
  pub walked : (id : String) → track_from id unborn s.events ≡ track_of (get_status id s)
  pub counted :
      (id : String) (row : AgentRow)
      → get id s.agents ≡ some row
      → row.error_count ≡ failures id s.events
  pub unheard : (id : String) → get id s.agents ≡ none → failures id s.events ≡ 0

fresh-IsLogged : IsLogged fresh_manager
unfolding get get_status track_from failures
fresh-IsLogged = record {
  walked = λ id. refl;
  counted = λ id row h. absurd (ground arith);
  unheard = λ id h. refl;
}

errors-update_row :
    (next : AgentStatus) (session error : Option String) (now : ℕ) (row : AgentRow)
    → (update_row next session error now row).error_count
      ≡ row.error_count + bit (same_status next failed)
unfolding update_row same_status
errors-update_row next session error now row = ground arith

errors-new_row : (spec : AgentSpec) → (new_row spec).error_count ≡ 0
unfolding new_row
errors-new_row spec = refl

advance_created : advance unborn created ≡ at created
unfolding advance
advance_created = refl

not_failed : same_status created failed ≡ false
unfolding same_status
not_failed = refl

module _ (e : Event) (id : String) (session error : Option String) (now : ℕ) (s s' : Manager) where
  Moved-IsLogged : Moved e id session error now s s' → IsConsistent s → IsLogged s → IsLogged s'
  unfolding get_status
  Moved-IsLogged mv c l = record { walked = walked; counted = counted; unheard = unheard }
    where
      open mv use {inst, next, found, instances, agents, events}

      same : inst.id ≡ id
      same = c.keyed id inst found

      inst' : AgentInstance
      inst' = record inst { status = next }

      r : EventRow
      r = record { agent_id = inst.id; event = next }

      insts :
          (j : String)
          → get j s'.instances ≡ (if str_eq inst.id j then some inst' else get j s.instances)
      insts j = ap (get j) instances ∙ get-put inst.id j inst' s.instances

      row : AgentRow
      row = (c.stored id inst found).0

      row' : AgentRow
      row' = update_row next session error now row

      rows : (j : String) → get j s'.agents ≡ (if str_eq id j then some row' else get j s.agents)
      rows j = ap (get j) (agents row (c.stored id inst found).1) ∙ get-put id j row' s.agents

      walked : (j : String) → track_from j unborn s'.events ≡ track_of (get_status j s')
      walked j = ground (
        arith,
        ap (track_from j unborn) events,
        track_from-append j unborn s.events r,
        l.walked j,
        insts j,
        found,
        edge-transitions inst.status next e mv.edge,
        eq_iff inst.id j,
        same,
      )

      logged :
          (j : String)
          → failures j s'.events
            ≡ failures j s.events + bit (str_eq inst.id j && same_status next failed)
      logged j = ap (failures j) events ∙ failures-append j s.events r

      counted :
          (j : String) (x : AgentRow)
          → get j s'.agents ≡ some x
          → x.error_count ≡ failures j s'.events
      counted j x h = elim (Bool-cases (str_eq id j)) [
        | inl here ↦ ground (
          arith,
          logged j,
          rows j,
          same,
          here,
          errors-update_row next session error now row,
          eq_iff id j,
          l.counted id row (c.stored id inst found).1,
        )
        | inr there ↦ ground (arith, logged j, rows j, same, there, l.counted j x)
      ]

      unheard : (j : String) → get j s'.agents ≡ none → failures j s'.events ≡ 0
      unheard j h = ground (arith, logged j, rows j, same, l.unheard j)

module _ (id : String) (spec : AgentSpec) (s s' : Manager) where
  Created-IsLogged : Created id spec s s' → IsConsistent s → IsLogged s → IsLogged s'
  unfolding get_status
  Created-IsLogged mk c l = record { walked = walked; counted = counted; unheard = unheard }
    where
      inst : AgentInstance
      inst = record { id = id; spec = spec; status = created }

      r : EventRow
      r = record { agent_id = id; event = created }

      insts :
          (j : String) → get j s'.instances ≡ (if str_eq id j then some inst else get j s.instances)
      insts j = ap (get j) mk.instances ∙ get-put id j inst s.instances

      rows :
          (j : String)
          → get j s'.agents ≡ (if str_eq id j then some (new_row spec) else get j s.agents)
      rows j = ap (get j) mk.agents ∙ get-put id j (new_row spec) s.agents

      -- no object without a row
      absent : get id s.instances ≡ none
      absent = elim (Option-cases (get id s.instances)) [
        | inl gone ↦ gone
        | inr (i, there) ↦ absurd (ground (arith, (c.stored id i there).1, mk.unused))
      ]

      walked : (j : String) → track_from j unborn s'.events ≡ track_of (get_status j s')
      walked j = ground (
        arith,
        ap (track_from j unborn) mk.events,
        track_from-append j unborn s.events r,
        l.walked j,
        insts j,
        absent,
        eq_iff id j,
        advance_created,
      )

      logged : (j : String) → failures j s'.events ≡ failures j s.events
      logged j = ground (arith, ap (failures j) mk.events, failures-append j s.events r, not_failed)

      counted :
          (j : String) (x : AgentRow)
          → get j s'.agents ≡ some x
          → x.error_count ≡ failures j s'.events
      counted j x h = elim (Bool-cases (str_eq id j)) [
        | inl here ↦ ground (
          arith,
          logged j,
          rows j,
          here,
          eq_iff id j,
          l.unheard id mk.unused,
          errors-new_row spec,
        )
        | inr there ↦ ground (arith, logged j, rows j, there, l.counted j x)
      ]

      unheard : (j : String) → get j s'.agents ≡ none → failures j s'.events ≡ 0
      unheard j h = ground (arith, logged j, rows j, l.unheard j)

Change-IsLogged :
    {now : ℕ} {s s' : Manager} → Change now s s' → IsConsistent s → IsLogged s → IsLogged s'
Change-IsLogged (unchanged same) c l = subst IsLogged (sym same) l
Change-IsLogged {s = s} {s' = s'} (made id spec mk) c l = Created-IsLogged id spec s s' mk c l
Change-IsLogged {now} {s} {s'} (moved e id session error mv) c l =
    Moved-IsLogged e id session error now s s' mv c l

-- Calls of the public methods, one after the other; a call that raises is passed over.
unfoldable pub apply_all : List (ℕ × Op) → Manager → Manager
unfolding apply
apply_all [] s = s
apply_all ((now, op) ∷ ops) s = apply_all ops (apply now op s).1

apply_all-IsLogged :
    (ops : List (ℕ × Op)) (s : Manager) → IsConsistent s → IsLogged s → IsLogged (apply_all ops s)
unfolding apply_all
apply_all-IsLogged [] s c l = l
apply_all-IsLogged ((now, op) ∷ ops) s c l =
    let change = apply-Change now op s in
    apply_all-IsLogged ops (apply now op s).1 (Change-IsConsistent change c)
      (Change-IsLogged change c l)

-- After any calls from an empty manager, the rows that the log holds for an agent read as a walk
-- through the transition matrix from CREATED to the agent's present status, and there are none for
-- an agent that was never created.
pub log_walks_matrix :
    (ops : List (ℕ × Op)) (id : String)
    → let s = apply_all ops fresh_manager in
      track_from id unborn s.events ≡ track_of (get_status id s)
log_walks_matrix ops id =
    (apply_all-IsLogged ops fresh_manager fresh-IsConsistent fresh-IsLogged).walked id

-- After any calls from an empty manager, the column `error_count` of an agent is the number of
-- its rows in the log that say that it failed.
pub error_count_exact :
    (ops : List (ℕ × Op)) (id : String) (row : AgentRow)
    → get id (apply_all ops fresh_manager).agents ≡ some row
    → row.error_count ≡ failures id (apply_all ops fresh_manager).events
error_count_exact ops id row =
    (apply_all-IsLogged ops fresh_manager fresh-IsConsistent fresh-IsLogged).counted id row
