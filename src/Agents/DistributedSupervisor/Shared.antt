-- ===== src/Agents/DistributedSupervisor/Shared.antt =====
-- Runs of one replica: the restarts of a name, and the part that the shared table plays.
use sccsos.Prelude.{
  ℕ, ◌+◌, ◌≤◌, String, ◌≡◌, refl, sym, ap, ◌∙◌, Bool, true, false, Option, none, some, List, [],
  ◌∷◌, ltb, arith, inl, inr, Bool-cases, eq_iff,
}
use sccsos.Prelude.Dict.{Dict, get, put, remove, get-put, get-remove}
use sccsos.Agents.Supervisor.{Config, Heap, or_default, zero_if_new}
use sccsos.Agents.DistributedSupervisor.{
  Replica, Table, register, unregister, beaten, heartbeat, is_due, restart, visit_found, visit,
  Step, registers, unregisters, beats, visits, process_changes, others_write, World, noted, act,
  run,
}

abbrev pub counted : String → Dict ℕ → ℕ
counted name d = or_default 0 (get name d)

-- No name has more starts than restarts counted, nor more of those than allowed.
abbrev IsBounded : Config → Dict ℕ → Dict ℕ → Type 0
IsBounded cfg starts counts =
    (name : String)
    → (counted name starts ≤ counted name counts) × (counted name counts ≤ cfg.max_restarts)

zero_if_new-counted :
    (name k : String) (o : Option ℕ) (counts : Dict ℕ)
    → get name counts ≡ o
    → counted k (zero_if_new name o counts) ≡ counted k counts
zero_if_new-counted name k none counts e = ground (arith, get-put name k 0 counts, e, eq_iff name k)
zero_if_new-counted name k (some n) counts e = refl

removed-IsBounded :
    (cfg : Config) (name : String) (starts counts : Dict ℕ)
    → IsBounded cfg starts counts
    → IsBounded cfg (remove name starts) (remove name counts)
removed-IsBounded cfg name starts counts h k = (
  ground (arith, get-remove name k starts, get-remove name k counts, (h k).0),
  ground (arith, get-remove name k counts, (h k).1),
)

restarted-IsBounded :
    (cfg : Config) (name : String) (starts counts : Dict ℕ)
    → ltb (counted name counts) cfg.max_restarts ≡ true
    → IsBounded cfg starts counts
    → IsBounded cfg
        (put name (counted name starts + 1) starts)
        (put name (counted name counts + 1) counts)
restarted-IsBounded cfg name starts counts left h k = (
  ground (
    arith,
    get-put name k (counted name starts + 1) starts,
    get-put name k (counted name counts + 1) counts,
    (h k).0,
    (h name).0,
  ),
  ground (arith, get-put name k (counted name counts + 1) counts, (h k).1, left),
)

abbrev Bounded : Config → World → Type 0
Bounded cfg w = IsBounded cfg w.starts w.replica.restart_counts

visit_found-Bounded :
    (cfg : Config) (name : String) (o : Option ℕ) (w : World)
    → Bounded cfg w
    → Bounded cfg (noted name (visit_found cfg name o w.replica) w)
unfolding visit_found restart
visit_found-Bounded cfg name none w h = h
visit_found-Bounded cfg name (some ref) w h = elim (Bool-cases (is_due cfg name ref w.replica)) [
  | inl due ↦
      rw due
        (restarted-IsBounded cfg name w.starts w.replica.restart_counts (ground (arith, due)) h)
  | inr idle ↦ rw idle h
]

beaten-counts :
    (name : String) (now : ℕ) (o : Option ℕ) (r : Replica) (table : Table)
    → (beaten name now o (r, table)).0.restart_counts ≡ r.restart_counts
unfolding beaten
beaten-counts name now none r table = refl
beaten-counts name now (some b) r table = refl

act-Bounded : (cfg : Config) (s : Step) (w : World) → Bounded cfg w → Bounded cfg (act cfg s w)
unfolding act register unregister heartbeat visit
act-Bounded cfg (registers name ref now later) w h = λ k. ground (
  arith,
  zero_if_new-counted name k (get name w.replica.restart_counts) w.replica.restart_counts refl,
  h k,
)
act-Bounded cfg (unregisters name) w h =
    removed-IsBounded cfg name w.starts w.replica.restart_counts h
act-Bounded cfg (beats name now) w h =
    rw (beaten-counts name now (get name w.replica.local_heartbeats) w.replica w.table) h
act-Bounded cfg (visits name) w h = visit_found-Bounded cfg name (get name w.replica.processes) w h
act-Bounded cfg (process_changes ref p) w h = h
act-Bounded cfg (others_write table) w h = h

-- A replica that supervises nothing yet
abbrev pub fresh : Heap → Table → World
fresh heap table = record {
  replica = record { processes = []; restart_counts = []; local_heartbeats = []; heap = heap };
  table = table;
  starts = [];
}

run-Bounded :
    (cfg : Config) (ss : List Step) (w : World) → Bounded cfg w → Bounded cfg (run cfg ss w)
unfolding run
run-Bounded cfg [] w h = h
run-Bounded cfg (s ∷ ss) w h = run-Bounded cfg ss (act cfg s w) (act-Bounded cfg s w h)

-- Whatever happens to a replica that starts empty, its monitor has started the process of a name at most
-- `max_restarts` times since the name was last unregistered.
pub starts_bounded :
    (cfg : Config) (heap : Heap) (table : Table) (ss : List Step) (name : String)
    → counted name (run cfg ss (fresh heap table)).starts ≤ cfg.max_restarts
unfolding get
starts_bounded cfg heap table ss name =
    let b = run-Bounded cfg ss (fresh heap table) (λ k. (omega arith, omega arith)) name in
    omega (arith, b.0, b.1)

-- What a step makes of a replica, taken alone
abbrev alone : Replica → World
alone r = record { replica = r; table = []; starts = [] }

noted-replica : (name : String) (p : Bool × Replica) (w : World) → (noted name p w).replica ≡ p.1
noted-replica name (true, r) w = refl
noted-replica name (false, r) w = refl

beaten-replica :
    (name : String) (now : ℕ) (o : Option ℕ) (r : Replica) (t u : Table)
    → (beaten name now o (r, t)).0 ≡ (beaten name now o (r, u)).0
unfolding beaten
beaten-replica name now none r t u = refl
beaten-replica name now (some b) r t u = refl

act-replica :
    (cfg : Config) (s : Step) (w : World)
    → (act cfg s w).replica ≡ (act cfg s (alone w.replica)).replica
unfolding act register unregister heartbeat
act-replica cfg (registers name ref now later) w = refl
act-replica cfg (unregisters name) w = refl
act-replica cfg (beats name now) w =
    beaten-replica name now (get name w.replica.local_heartbeats) w.replica w.table []
act-replica cfg (visits name) w =
    noted-replica name (visit cfg name w.replica) w
    ∙ sym (noted-replica name (visit cfg name w.replica) (alone w.replica))
act-replica cfg (process_changes ref p) w = refl
act-replica cfg (others_write table) w = refl

-- The steps without what other replicas write
abbrev pub own : List Step → List Step
own [] = []
own (registers name ref now later ∷ ss) = registers name ref now later ∷ own ss
own (unregisters name ∷ ss) = unregisters name ∷ own ss
own (beats name now ∷ ss) = beats name now ∷ own ss
own (visits name ∷ ss) = visits name ∷ own ss
own (process_changes ref p ∷ ss) = process_changes ref p ∷ own ss
own (others_write table ∷ ss) = own ss

same_act :
    (cfg : Config) (s : Step) (w v : World)
    → w.replica ≡ v.replica
    → (act cfg s w).replica ≡ (act cfg s v).replica
same_act cfg s w v e =
    act-replica cfg s w ∙ ap (λ r. (act cfg s (alone r)).replica) e ∙ sym (act-replica cfg s v)

-- The table that the replicas share plays no part: a replica ends as it would with any other table, and
-- without anything that other replicas write.
pub table_unread :
    (cfg : Config) (ss : List Step) (w v : World)
    → w.replica ≡ v.replica
    → (run cfg ss w).replica ≡ (run cfg (own ss) v).replica
unfolding run
table_unread cfg [] w v e = e
table_unread cfg (registers name ref now later ∷ ss) w v e =
    table_unread cfg ss (act cfg (registers name ref now later) w)
      (act cfg (registers name ref now later) v) (same_act cfg (registers name ref now later) w v e)
table_unread cfg (unregisters name ∷ ss) w v e =
    table_unread cfg ss (act cfg (unregisters name) w) (act cfg (unregisters name) v)
      (same_act cfg (unregisters name) w v e)
table_unread cfg (beats name now ∷ ss) w v e =
    table_unread cfg ss (act cfg (beats name now) w) (act cfg (beats name now) v)
      (same_act cfg (beats name now) w v e)
table_unread cfg (visits name ∷ ss) w v e =
    table_unread cfg ss (act cfg (visits name) w) (act cfg (visits name) v)
      (same_act cfg (visits name) w v e)
table_unread cfg (process_changes ref p ∷ ss) w v e =
    table_unread cfg ss (act cfg (process_changes ref p) w) (act cfg (process_changes ref p) v)
      (same_act cfg (process_changes ref p) w v e)
table_unread cfg (others_write table ∷ ss) w v e =
    table_unread cfg ss (act cfg (others_write table) w) v
      (act-replica cfg (others_write table) w ∙ e)
