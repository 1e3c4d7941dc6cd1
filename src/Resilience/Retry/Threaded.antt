-- ===== src/Resilience/Retry/Threaded.antt =====
-- `RetryPolicy.execute` where `fn` changes a state: the loop with the state handed from call to call.
use sccsos.Prelude.{
  ℕ, zero, suc, ◌+◌, String, ◌≡◌, refl, ap, subst, Bool, true, false, Option, none, some,
  if◌then◌else◌, ltb, arith, inl, inr, Bool-cases,
}
use sccsos.Resilience.Retry.{
  Attempt, returns, raises, cancelled_after, raised_again, exhausted, Outcome, value, error, Log,
  no_log, Settings, is_final, called, pause_after, attempts, execute,
}

abbrev pub Ended {ℓ κ} : Type ℓ → Type κ → Type (ℓ ⊔ κ)
Ended A S = (Outcome A × Log) × S

-- One round: the test of the cancel event, the call's result, and the rounds behind it.
abbrev pub round {ℓ κ} :
    {A : Type ℓ} {S : Type κ}
    → Settings
    → ℕ
    → Log
    → S
    → Bool
    → Attempt A × S
    → (String → Log → S → Ended A S)
    → Ended A S
round cfg attempt log s true r more = ((error (cancelled_after attempt), log), s)
round cfg attempt log s false (returns a, s') more = ((value a, called log), s')
round cfg attempt log s false (raises message, s') more =
    if is_final cfg message
    then ((error (raised_again message), called log), s')
    else if ltb (attempt + 1) cfg.max_attempts
    then more message (pause_after cfg attempt (called log)) s'
    else more message (called log) s'

module _ {ℓ κ} {A : Type ℓ} {S : Type κ} (cfg : Settings) (fn : ℕ → S → Attempt A × S)
    (cancelled : ℕ → Bool) where
  unfoldable pub attempts_in : ℕ → ℕ → Option String → Log → S → Ended A S
  attempts_in zero attempt last log s = ((error (exhausted cfg.max_attempts last), log), s)
  attempts_in (suc left) attempt last log s =
      round cfg attempt log s (cancelled attempt) (fn attempt s)
        (λ message log' s'. attempts_in left (attempt + 1) (some message) log' s')

  unfoldable pub execute_in : S → Ended A S
  unfolding attempts_in
  execute_in s = attempts_in cfg.max_attempts 0 none no_log s

  -- The state before call `n`, if the calls before it are made one after the other.
  unfoldable pub state_at : S → ℕ → S
  state_at s zero = s
  state_at s (suc n) = (fn n (state_at s n)).1

  abbrev pub call_at : S → ℕ → Attempt A
  call_at s n = (fn n (state_at s n)).0

  -- What a state has after the loop: `Q` when `fn` returned, else `P`.
  abbrev pub Ends {μ} : (S → Type μ) → (S → Type μ) → Ended A S → Type μ
  Ends P Q ((value a, log), s) = Q s
  Ends P Q ((error e, log), s) = P s

  module _ {μ} (P Q : S → Type μ)
      (ok : (n : ℕ) (s : S) (a : A) → P s → (fn n s).0 ≡ returns a → Q (fn n s).1)
      (bad : (n : ℕ) (s : S) (m : String) → P s → (fn n s).0 ≡ raises m → P (fn n s).1) where
    round-Ends :
        (n : ℕ) (log : Log) (s : S) (c : Bool) (r : Attempt A × S)
        (more : String → Log → S → Ended A S)
        → fn n s ≡ r
        → P s
        → ((m : String) (l : Log) (s' : S) → P s' → Ends P Q (more m l s'))
        → Ends P Q (round cfg n log s c r more)
    round-Ends n log s true r more e p k = p
    round-Ends n log s false (returns a, s') more e p k =
        subst Q (ap (λ x. x.1) e) (ok n s a p (ap (λ x. x.0) e))
    round-Ends n log s false (raises m, s') more e p k =
        let p' = subst P (ap (λ x. x.1) e) (bad n s m p (ap (λ x. x.0) e)) in
        elim (Bool-cases (is_final cfg m)) [
          | inl final ↦ rw final p'
          | inr again ↦ rw again (elim (Bool-cases (ltb (n + 1) cfg.max_attempts)) [
            | inl left ↦ rw left (k m (pause_after cfg n (called log)) s' p')
            | inr last ↦ rw last (k m (called log) s' p')
          ])
        ]

    attempts_in-Ends :
        (left n : ℕ) (last : Option String) (log : Log) (s : S)
        → P s
        → Ends P Q (attempts_in left n last log s)
    unfolding attempts_in
    attempts_in-Ends zero n last log s p = p
    attempts_in-Ends (suc left) n last log s p =
        round-Ends n log s (cancelled n) (fn n s) _ refl p
          (λ m l s' p'. attempts_in-Ends left (n + 1) (some m) l s' p')

    -- An invariant of `fn` is one of the loop, and where `fn` returned, what its return gives holds.
    pub execute_in-Ends : (s : S) → P s → Ends P Q (execute_in s)
    unfolding execute_in
    execute_in-Ends s p = attempts_in-Ends cfg.max_attempts 0 none no_log s p

  round-pure :
      (n : ℕ) (log : Log) (s : S) (c : Bool) (r : Attempt A × S)
      (more : String → Log → S → Ended A S) (next : String → Log → Outcome A × Log)
      → ((m : String) (l : Log) → (more m l r.1).0 ≡ next m l)
      → (round cfg n log s c r more).0 ≡ (
          if c then (error (cancelled_after n), log) else elim r.0 as (λ x. Outcome A × Log) [
            | returns a ↦ (value a, called log)
            | raises m ↦
                if is_final cfg m
                then (error (raised_again m), called log)
                else if ltb (n + 1) cfg.max_attempts
                then next m (pause_after cfg n (called log))
                else next m (called log)
          ])
  round-pure n log s true r more next k = refl
  round-pure n log s false (returns a, s') more next k = refl
  round-pure n log s false (raises m, s') more next k = elim (Bool-cases (is_final cfg m)) [
    | inl final ↦ rw final refl
    | inr again ↦ rw again (elim (Bool-cases (ltb (n + 1) cfg.max_attempts)) [
      | inl left ↦ rw left (k m (pause_after cfg n (called log)))
      | inr last ↦ rw last (k m (called log))
    ])
  ]

  attempts_in-attempts :
      (s0 : S) (left n : ℕ) (last : Option String) (log : Log)
      → (attempts_in left n last log (state_at s0 n)).0
        ≡ attempts cfg (call_at s0) cancelled left n last log
  unfolding attempts_in attempts state_at
  attempts_in-attempts s0 zero n last log = refl
  attempts_in-attempts s0 (suc left) n last log =
      round-pure n log (state_at s0 n) (cancelled n) (fn n (state_at s0 n))
        (λ m l s'. attempts_in left (n + 1) (some m) l s')
        (λ m l. attempts cfg (call_at s0) cancelled left (n + 1) (some m) l)
        (λ m l.
          let e : n + 1 ≡ suc n = omega arith in
          subst
            (λ j.
              (attempts_in left (n + 1) (some m) l (state_at s0 j)).0
              ≡ attempts cfg (call_at s0) cancelled left (n + 1) (some m) l)
            e (attempts_in-attempts s0 left (n + 1) (some m) l))

  -- The loop that hands a state on ends with the outcome and the log of the loop over the results
  -- that its calls have, one after the other.
  execute_in-execute : (s : S) → (execute_in s).0 ≡ execute cfg (call_at s) cancelled
  unfolding execute_in execute state_at
  execute_in-execute s = attempts_in-attempts s cfg.max_attempts 0 none no_log
