-- ===== src/Agents/DistributedSupervisor/Rounds.antt =====
-- One round of the monitor.
use sccsos.Prelude.{
  ℕ, ◌+◌, String, ◌≡◌, sym, subst, Bool, true, false, Option, none, some, List, [], ◌∷◌, ◌⊎◌, ◌==◌,
  str_eq, has, arith, inl, inr, Bool-cases, eq_iff,
}
use sccsos.Prelude.Dict.{get, get-put}
use sccsos.Agents.Supervisor.{Config, or_default, set_process, start_process}
use sccsos.Agents.DistributedSupervisor.{Replica, is_due, restart, visit_found, visit, visit_all}

-- A supervised name whose process the monitor has to start
pub record IsDue (cfg : Config) (name : String) (ref : ℕ) (r : Replica) : Type 0 where
  pub supervised : get name r.processes ≡ some ref
  pub due : is_due cfg name ref r ≡ true

abbrev pub is_alive : ℕ → Replica → Bool
is_alive ref r = (r.heap ref).alive

restart-alive :
    (name : String) (ref j : ℕ) (r : Replica)
    → is_alive j r ≡ true
    → is_alive j (restart name ref r) ≡ true
unfolding restart set_process start_process
restart-alive name ref j r h = ground (arith, h)

restart_self : (name : String) (ref : ℕ) (r : Replica) → is_alive ref (restart name ref r) ≡ true
unfolding restart set_process start_process
restart_self name ref r = ground arith

visit_found-alive :
    (cfg : Config) (name : String) (o : Option ℕ) (j : ℕ) (r : Replica)
    → is_alive j r ≡ true
    → is_alive j (visit_found cfg name o r).1 ≡ true
unfolding visit_found
visit_found-alive cfg name none j r h = h
visit_found-alive cfg name (some ref) j r h = elim (Bool-cases (is_due cfg name ref r)) [
  | inl due ↦ rw due (restart-alive name ref j r h)
  | inr idle ↦ rw idle h
]

visit_all-alive :
    (cfg : Config) (ns : List String) (j : ℕ) (r : Replica)
    → is_alive j r ≡ true
    → is_alive j (visit_all cfg ns r) ≡ true
unfolding visit_all visit
visit_all-alive cfg [] j r h = h
visit_all-alive cfg (n ∷ ns) j r h =
    visit_all-alive cfg ns j (visit_found cfg n (get n r.processes) r).1
      (visit_found-alive cfg n (get n r.processes) j r h)

-- A visit of another name starts the process, or leaves it to be started.
restart_other :
    (cfg : Config) (n name : String) (k ref : ℕ) (r : Replica)
    → str_eq n name ≡ false
    → IsDue cfg name ref r
    → (is_alive ref (restart n k r) ≡ true) ⊎ IsDue cfg name ref (restart n k r)
unfolding restart set_process start_process
restart_other cfg n name k ref r other d = elim (Bool-cases (ref == k)) [
  | inl same ↦ inl (ground (arith, same))
  | inr apart ↦ inr (record {
    supervised = d.supervised;
    due = ground (
      arith,
      apart,
      d.due,
      get-put n name (or_default 0 (get n r.restart_counts) + 1) r.restart_counts,
      other,
    );
  })
]

visit_other :
    (cfg : Config) (n name : String) (o : Option ℕ) (ref : ℕ) (r : Replica)
    → str_eq n name ≡ false
    → IsDue cfg name ref r
    → (is_alive ref (visit_found cfg n o r).1 ≡ true) ⊎ IsDue cfg name ref (visit_found cfg n o r).1
unfolding visit_found
visit_other cfg n name none ref r other d = inr d
visit_other cfg n name (some k) ref r other d = elim (Bool-cases (is_due cfg n k r)) [
  | inl due ↦ rw due (restart_other cfg n name k ref r other d)
  | inr idle ↦ rw idle (inr d)
]

visit_self :
    (cfg : Config) (n name : String) (ref : ℕ) (r : Replica)
    → str_eq n name ≡ true
    → IsDue cfg name ref r
    → is_alive ref (visit_found cfg n (get n r.processes) r).1 ≡ true
unfolding visit_found
visit_self cfg n name ref r same d =
    let e : n ≡ name = ground (arith, same, eq_iff n name) in
    subst (λ x. is_alive ref (visit_found cfg x (get x r.processes) r).1 ≡ true) (sym e)
      (rw (d.supervised) (rw (d.due) (restart_self name ref r)))

-- A round of the monitor over names with nothing in between starts the process of each supervised name
-- among them that is dead, is not paused and has a restart left.
pub round_revives :
    (cfg : Config) (ns : List String) (name : String) (ref : ℕ) (r : Replica)
    → has name ns ≡ true
    → IsDue cfg name ref r
    → is_alive ref (visit_all cfg ns r) ≡ true
unfolding visit_all visit
round_revives cfg [] name ref r h d = absurd (cc)
round_revives cfg (n ∷ ns) name ref r h d = elim (Bool-cases (str_eq n name)) [
  | inl same ↦
      visit_all-alive cfg ns ref (visit_found cfg n (get n r.processes) r).1
        (visit_self cfg n name ref r same d)
  | inr other ↦ elim (visit_other cfg n name (get n r.processes) ref r other d) [
    | inl up ↦ visit_all-alive cfg ns ref (visit_found cfg n (get n r.processes) r).1 up
    | inr still ↦
        round_revives cfg ns name ref (visit_found cfg n (get n r.processes) r).1
          (ground (arith, h, other)) still
  ]
]
