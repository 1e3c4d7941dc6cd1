-- ===== src/Agents/Supervisor/Restarts.antt =====
-- How often the monitor restarts an agent, however the threads interleave.
use sccsos.Prelude.{
  ℕ, ◌+◌, ◌≤◌, ◌<◌, String, ◌≡◌, refl, sym, ap, ◌∙◌, subst, ◌⊎◌, ltb→lt, Bool-cases, ◌&&◌, not,
  List, [], ◌∷◌, if◌then◌else◌, ltb, str_eq, inl, inr, Option-cases, arith, eq_iff, eq_refl,
}
use sccsos.Prelude.Dict.{get, get-put, get-remove}
use sccsos.Agents.Supervisor.{
  Config, Heap, Supervisor, or_default, register, unregister, heartbeat, Phase, idle, seen_dead,
  counted, restarted, look_at, look, decide, note_restart, World, Action, do_register,
  do_unregister, do_heartbeat, change, do_look, do_decide, do_start, do_note, set_starts, monitor,
  act, run, fresh_world,
}

abbrev pub count_of : String → Supervisor → ℕ
count_of k s = or_default 0 (get k (s.restart_counts))

-- The restarts of a name that the supervisor has counted, with the one that it is about to count.
abbrev pub due : String → Phase → Supervisor → ℕ
due k (restarted name count) s = if str_eq name k then count + 1 else count_of k s
due k (counted name ref count) s = if str_eq name k then count else count_of k s
due k _ s = count_of k s

abbrev pub WithinPhase : Config → Phase → Type 0
WithinPhase cfg (restarted name count) = count < cfg.max_restarts
WithinPhase cfg (counted name ref count) = count < cfg.max_restarts
WithinPhase cfg _ = Unit

-- The counts, the monitor's phase and its calls of `start` fit together.
pub record Bounded (cfg : Config) (s : Supervisor) (p : Phase) (starts : String → ℕ) : Type 0 where
  pub counts : (k : String) → count_of k s ≤ cfg.max_restarts
  pub covered : (k : String) → starts k ≤ due k p s
  pub within : WithinPhase cfg p

abbrev pub IsBounded : Config → World → Type 0
IsBounded cfg w = Bounded cfg (w.supervisor) (w.phase) (w.starts)

count-register :
    (k name : String) (ref now : ℕ) (s : Supervisor)
    → count_of k (register name ref now s) ≡ count_of k s
unfolding register
count-register k name ref now s = elim (Option-cases (get name (s.restart_counts))) [
  | inl gone ↦ ground (arith, gone, get-put name k 0 (s.restart_counts), eq_iff name k)
  | inr (n, there) ↦ ground (arith, there)
]

count-unregister :
    (k name : String) (s : Supervisor)
    → count_of k (unregister name s) ≡ (if str_eq name k then 0 else count_of k s)
unfolding unregister
count-unregister k name s = ground (arith, get-remove name k (s.restart_counts))

count-note_restart :
    (k name : String) (count now : ℕ) (s : Supervisor)
    → count_of k (note_restart name count now s)
      ≡ (if str_eq name k then count + 1 else count_of k s)
unfolding note_restart
count-note_restart k name count now s =
    ground (arith, get-put name k (count + 1) (s.restart_counts))

count-heartbeat :
    (k name : String) (now : ℕ) (s : Supervisor) → count_of k (heartbeat name now s) ≡ count_of k s
unfolding heartbeat
count-heartbeat k name now s = refl

-- A change of the supervisor that leaves the counts alone
same_counts :
    (cfg : Config) (s s' : Supervisor) (p : Phase) (starts : String → ℕ)
    → ((k : String) → count_of k s' ≡ count_of k s)
    → Bounded cfg s p starts
    → Bounded cfg s' p starts
same_counts cfg s s' p starts same b = record {
  counts = λ k. ground (arith, same k, b.counts k);
  covered = λ k. covers p k (b.covered k);
  within = b.within;
}
  where
    covers : (p : Phase) (k : String) → starts k ≤ due k p s → starts k ≤ due k p s'
    covers idle k h = ground (arith, same k)
    covers (seen_dead name ref) k h = ground (arith, same k)
    covers (counted name ref count) k h = ground (arith, same k)
    covers (restarted name count) k h = ground (arith, same k)

unregister-Bounded :
    (cfg : Config) (name : String) (s : Supervisor) (p : Phase) (starts : String → ℕ)
    → Bounded cfg s p starts
    → Bounded cfg (unregister name s) p (set_starts name 0 starts)
unregister-Bounded cfg name s p starts b = record {
  counts = λ k. ground (arith, count-unregister k name s, b.counts k);
  covered = λ k. covers p k (b.covered k);
  within = b.within;
}
  where
    covers :
        (p : Phase) (k : String)
        → starts k ≤ due k p s
        → set_starts name 0 starts k ≤ due k p (unregister name s)
    covers idle k h = ground (arith, count-unregister k name s)
    covers (seen_dead n ref) k h = ground (arith, count-unregister k name s)
    covers (counted n ref count) k h = ground (arith, count-unregister k name s)
    covers (restarted n count) k h = ground (arith, count-unregister k name s)

pub look-cases :
    (name : String) (heap : Heap) (s : Supervisor)
    → (look name heap s ≡ idle) ⊎ ((ref : ℕ) × (look name heap s ≡ seen_dead name ref))
unfolding look
look-cases name heap s = elim (Option-cases (get name (s.processes))) [
  | inl gone ↦ inl (rw gone)
  | inr (ref, there) ↦ elim (Bool-cases (not (heap ref).alive && not (heap ref).paused)) [
    | inl dead ↦ inr (ref, ap (look_at name heap) there ∙ rw dead)
    | inr fine ↦ inl (ap (look_at name heap) there ∙ rw fine)
  ]
]

look-Bounded :
    (cfg : Config) (name : String) (heap : Heap) (s : Supervisor) (starts : String → ℕ)
    → Bounded cfg s idle starts
    → Bounded cfg s (look name heap s) starts
look-Bounded cfg name heap s starts b = elim (look-cases name heap s) [
  | inl e ↦ subst (λ p. Bounded cfg s p starts) (sym e) b
  | inr (ref, e) ↦
      subst (λ p. Bounded cfg s p starts) (sym e)
        (record { counts = b.counts; covered = b.covered; within = tt })
]

decide-Bounded :
    (cfg : Config) (name : String) (ref : ℕ) (s : Supervisor) (starts : String → ℕ)
    → Bounded cfg s (seen_dead name ref) starts
    → Bounded cfg s (decide cfg name ref s) starts
unfolding decide
decide-Bounded cfg name ref s starts b =
    elim (Bool-cases (ltb (count_of name s) cfg.max_restarts)) [
      | inl below ↦
          subst (λ x. Bounded cfg s (if x then counted name ref (count_of name s) else idle) starts)
            (sym below)
            (record {
              counts = b.counts;
              covered = λ k. ground (arith, b.covered k, eq_iff name k);
              within = ltb→lt (count_of name s) cfg.max_restarts below;
            })
      | inr over ↦
          subst (λ x. Bounded cfg s (if x then counted name ref (count_of name s) else idle) starts)
            (sym over) (record { counts = b.counts; covered = b.covered; within = tt })
    ]

monitor-Bounded :
    (cfg : Config) (a : Action) (p : Phase) (w : World)
    → IsBounded cfg w
    → Bounded cfg (w.supervisor) p (w.starts)
    → IsBounded cfg (monitor cfg a p w)
monitor-Bounded cfg (do_look name) idle w b c =
    look-Bounded cfg name (w.heap) (w.supervisor) (w.starts) c
monitor-Bounded cfg do_decide (seen_dead name ref) w b c =
    decide-Bounded cfg name ref (w.supervisor) (w.starts) c
monitor-Bounded cfg do_start (counted name ref count) w b c = record {
  counts = c.counts;
  covered = λ k. ground (arith, c.covered k, c.covered name, eq_refl name);
  within = c.within;
}
monitor-Bounded cfg (do_note now) (restarted name count) w b c = record {
  counts =
      λ k. ground (arith, count-note_restart k name count now (w.supervisor), c.counts k, c.within);
  covered = λ k. ground (arith, count-note_restart k name count now (w.supervisor), c.covered k);
  within = tt;
}
monitor-Bounded cfg _ _ w b c = b

act-IsBounded :
    (cfg : Config) (a : Action) (w : World) → IsBounded cfg w → IsBounded cfg (act cfg a w)
unfolding act
act-IsBounded cfg (do_register name ref now) w b =
    same_counts cfg (w.supervisor) (register name ref now (w.supervisor)) (w.phase) (w.starts)
      (λ k. count-register k name ref now (w.supervisor)) b
act-IsBounded cfg (do_unregister name) w b =
    unregister-Bounded cfg name (w.supervisor) (w.phase) (w.starts) b
act-IsBounded cfg (do_heartbeat name now) w b =
    same_counts cfg (w.supervisor) (heartbeat name now (w.supervisor)) (w.phase) (w.starts)
      (λ k. count-heartbeat k name now (w.supervisor)) b
act-IsBounded cfg (change ref p) w b = b
act-IsBounded cfg (do_look name) w b = monitor-Bounded cfg (do_look name) (w.phase) w b b
act-IsBounded cfg do_decide w b = monitor-Bounded cfg do_decide (w.phase) w b b
act-IsBounded cfg do_start w b = monitor-Bounded cfg do_start (w.phase) w b b
act-IsBounded cfg (do_note now) w b = monitor-Bounded cfg (do_note now) (w.phase) w b b

run-IsBounded :
    (cfg : Config) (actions : List Action) (w : World)
    → IsBounded cfg w
    → IsBounded cfg (run cfg actions w)
unfolding run
run-IsBounded cfg [] w b = b
run-IsBounded cfg (a ∷ rest) w b = run-IsBounded cfg rest (act cfg a w) (act-IsBounded cfg a w b)

fresh-IsBounded : (cfg : Config) (heap : Heap) → IsBounded cfg (fresh_world heap)
unfolding get
fresh-IsBounded cfg heap = record {
  counts = λ k. omega arith;
  covered = λ k. omega arith;
  within = tt;
}

due-bound :
    (cfg : Config) (w : World) (k : String) → IsBounded cfg w → w.starts k ≤ cfg.max_restarts
due-bound cfg w k b = by_phase (w.phase) (b.covered k) b.within
  where
    by_phase :
        (p : Phase)
        → w.starts k ≤ due k p (w.supervisor)
        → WithinPhase cfg p
        → w.starts k ≤ cfg.max_restarts
    by_phase idle h v = omega (arith, h, b.counts k)
    by_phase (seen_dead n r) h v = omega (arith, h, b.counts k)
    by_phase (counted n r c) h v = ground (arith, h, v, b.counts k)
    by_phase (restarted n c) h v = ground (arith, h, v, b.counts k)

-- Whatever the threads do and however their steps interleave, the monitor has started an agent at
-- most `max_restarts` times since the last `unregister` of its name, and the count that the
-- supervisor shows is at most that too.
pub restarts_bounded :
    (cfg : Config) (actions : List Action) (heap : Heap) (k : String)
    → let w = run cfg actions (fresh_world heap) in
      (w.starts k ≤ cfg.max_restarts) × (count_of k (w.supervisor) ≤ cfg.max_restarts)
restarts_bounded cfg actions heap k =
    let b = run-IsBounded cfg actions (fresh_world heap) (fresh-IsBounded cfg heap) in
    (due-bound cfg (run cfg actions (fresh_world heap)) k b, b.counts k)
