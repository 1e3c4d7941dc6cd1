-- ===== src/Agents/Supervisor/Revival.antt =====
-- What one turn of the monitor's loop does for a name, when no other thread acts in between.
use sccsos.Prelude.{
  ℕ, ◌+◌, ◌-◌, ◌<◌, ◌≤◌, String, ◌≡◌, refl, ap, ◌∙◌, ◌⊎◌, inl, inr, true, false, none, some, [],
  ◌∷◌, List, if◌then◌else◌, ltb, ◌==◌, arith, lt→ltb, not_ltb,
}
use sccsos.Prelude.Dict.{get, get-put_self}
use sccsos.Agents.Supervisor.{
  Config, Heap, start_process, set_process, Supervisor, or_default, get_status, Phase, idle,
  seen_dead, counted, look_at, look, decide, note_restart, World, Action, do_look, do_decide,
  do_start, do_note, set_starts, act, run,
}
use sccsos.Agents.Supervisor.Restarts.{count_of, look-cases}

-- The body of the loop for one name
abbrev pub turn : String → ℕ → List Action
turn name now = do_look name ∷ do_decide ∷ do_start ∷ do_note now ∷ []

same_ref : (ref : ℕ) → (ref == ref) ≡ true
same_ref ref = ground arith

module _ (cfg : Config) (name : String) (now : ℕ) (s : Supervisor) (heap : Heap)
    (starts : String → ℕ) where
  abbrev pub at_rest : World
  at_rest = record { supervisor = s; heap = heap; phase = idle; starts = starts }

  abbrev pub after_look : Phase → World
  after_look p = record { supervisor = s; heap = heap; phase = p; starts = starts }

  abbrev pub revived : ℕ → World
  revived ref = record {
    supervisor = note_restart name (count_of name s) now s;
    heap = set_process ref (start_process (heap ref)) heap;
    phase = idle;
    starts = set_starts name (starts name + 1) starts;
  }

  turn-seen :
      (ref : ℕ)
      → look name heap s ≡ seen_dead name ref
      → run cfg (turn name now) at_rest
        ≡ run cfg (do_start ∷ do_note now ∷ []) (after_look (decide cfg name ref s))
  unfolding run act
  turn-seen ref e = rw e

  decided :
      (ref : ℕ)
      → decide cfg name ref s ≡ (
          if ltb (count_of name s) cfg.max_restarts
          then counted name ref (count_of name s)
          else idle)
  unfolding decide
  decided ref = refl

  seen :
      (ref : ℕ)
      → get name (s.processes) ≡ some ref
      → (heap ref).alive ≡ false
      → (heap ref).paused ≡ false
      → look name heap s ≡ seen_dead name ref
  unfolding look
  seen ref g a p = ap (look_at name heap) g ∙ rw (a, p)

  turn-revived :
      (ref : ℕ)
      → get name (s.processes) ≡ some ref
      → (heap ref).alive ≡ false
      → (heap ref).paused ≡ false
      → count_of name s < cfg.max_restarts
      → run cfg (turn name now) at_rest ≡ revived ref
  unfolding run act
  turn-revived ref g a p below =
      turn-seen ref (seen ref g a p)
      ∙ ap (λ x. run cfg (do_start ∷ do_note now ∷ []) (after_look x))
          {y = counted name ref (count_of name s)}
          (decided ref ∙ rw (lt→ltb (count_of name s) cfg.max_restarts below))

  turn-unseen : look name heap s ≡ idle → run cfg (turn name now) at_rest ≡ at_rest
  unfolding run act
  turn-unseen e = rw e

  stays : run cfg (do_start ∷ do_note now ∷ []) at_rest ≡ at_rest
  unfolding run act
  stays = refl

  -- A turn for a name leaves everything as it was if the name is not supervised, or its process is
  -- alive or paused, or the supervisor has counted `max_restarts` restarts of it.
  pub turn_idle :
      (get name (s.processes) ≡ none)
        ⊎ ((ref : ℕ) × (get name (s.processes) ≡ some ref)
            × (((heap ref).alive ≡ true)
                ⊎ ((heap ref).paused ≡ true)
                ⊎ (cfg.max_restarts ≤ count_of name s)))
      → run cfg (turn name now) at_rest ≡ at_rest
  unfolding look
  turn_idle (inl gone) = turn-unseen (ap (look_at name heap) gone)
  turn_idle (inr (ref, g, inl a)) = turn-unseen (ap (look_at name heap) g ∙ rw a)
  turn_idle (inr (ref, g, inr (inl p))) = turn-unseen (ap (look_at name heap) g ∙ ground (arith, p))
  turn_idle (inr (ref, g, inr (inr over))) = elim (look-cases name heap s) [
    | inl e ↦ turn-unseen e
    | inr (r, e) ↦
        turn-seen r e
        ∙ ap (λ x. run cfg (do_start ∷ do_note now ∷ []) (after_look x)) {y = idle}
            (decided r ∙ rw (not_ltb (count_of name s) cfg.max_restarts over))
        ∙ stays
  ]

  pub revived-status :
      (ref : ℕ) (later : ℕ)
      → get name (s.processes) ≡ some ref
      → (heap ref).alive ≡ false
      → get_status cfg name later ((revived ref).heap) ((revived ref).supervisor)
        ≡ some (record {
          name = name;
          alive = true;
          responsive = ltb (later - or_default 0 (get name (s.heartbeats))) (cfg.heartbeat_timeout);
          restart_count = count_of name s + 1;
          paused = false;
          uptime_seconds = later - now;
        })
  unfolding get_status note_restart set_process start_process
  revived-status ref later g a = rw (
    g,
    get-put_self name (count_of name s + 1) (s.restart_counts),
    get-put_self name now (s.start_times),
    same_ref ref,
    a,
  )

-- If the process of a supervised name is dead, not paused, and restarted fewer than `max_restarts`
-- times, one turn of the monitor brings it back: its status is alive and unpaused, with one restart
-- more, and its time of running counts from the restart. `responsive` still asks the last heartbeat.
pub turn_revives :
    (cfg : Config) (name : String) (now later ref : ℕ) (s : Supervisor) (heap : Heap)
    (starts : String → ℕ)
    → get name (s.processes) ≡ some ref
    → (heap ref).alive ≡ false
    → (heap ref).paused ≡ false
    → count_of name s < cfg.max_restarts
    → let w = run cfg (turn name now) (at_rest cfg name now s heap starts) in
      get_status cfg name later (w.heap) (w.supervisor)
      ≡ some (record {
        name = name;
        alive = true;
        responsive = ltb (later - or_default 0 (get name (s.heartbeats))) (cfg.heartbeat_timeout);
        restart_count = count_of name s + 1;
        paused = false;
        uptime_seconds = later - now;
      })
turn_revives cfg name now later ref s heap starts g a p below =
    ap (λ w. get_status cfg name later (w.heap) (w.supervisor))
      (turn-revived cfg name now s heap starts ref g a p below)
    ∙ revived-status cfg name now s heap starts ref later g a
