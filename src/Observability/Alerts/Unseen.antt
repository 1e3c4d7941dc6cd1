-- ===== src/Observability/Alerts/Unseen.antt =====
-- What the forms of a time make of the window of a threshold.
use sccsos.Prelude.{
  ℕ, ◌-◌, ◌*◌, ◌/◌, String, ◌≡◌, refl, Bool, true, false, not, ◌&&◌, none, List, [], ◌∷◌, length,
  keep, every, leb, ltb, ltb→lt, arith, inl, inr, Bool-cases,
}
use sccsos.Observability.Alerts.{
  Share, Metric, error_rate, failure_count, budget_usage, AlertThreshold, AuditEntry, Audited, day,
  isoformat, at_least, record_entry, record_all, reaches, in_window, total_in, failed_in,
  evaluate_metric, evaluate_threshold,
}

-- No row is in the window.
abbrev all_before : ℕ → List AuditEntry → Bool
all_before since log = every (λ r. not (at_least r.timestamp (isoformat since))) log

none_in :
    (since : ℕ) (p : AuditEntry → Bool) (log : List AuditEntry)
    → ((r : AuditEntry) → p r ≡ true → at_least r.timestamp (isoformat since) ≡ true)
    → all_before since log ≡ true
    → length (keep p log) ≡ 0
none_in since p [] h e = refl
none_in since p (r ∷ log) h e = ground (arith, none_in since p log h, h r, e)

all_before-last :
    (since : ℕ) (c : Audited) (log : List AuditEntry)
    → leb (c.time / day) (since / day) ≡ true
    → all_before since log ≡ true
    → all_before since (record_entry c log) ≡ true
all_before-last since c [] h e = ground (arith, h)
all_before-last since c (r ∷ log) h e = ground (arith, e, all_before-last since c log h)

all_before-record_all :
    (since : ℕ) (cs : List Audited) (log : List AuditEntry)
    → every (λ c. leb (c.time / day) (since / day)) cs ≡ true
    → all_before since log ≡ true
    → all_before since (record_all cs log) ≡ true
all_before-record_all since [] log h e = e
all_before-record_all since (c ∷ cs) log h e =
    all_before-record_all since cs (record_entry c log) (ground (arith, h))
      (all_before-last since c log (ground (arith, h)) e)

nothing_reaches : (s : Share) → reaches (record { num = 0; den = 1 }) s ≡ false
nothing_reaches s = elim (Bool-cases (ltb 0 s.num)) [
  | inl pos ↦
      let over : leb (s.num * 1) (0 * s.den) ≡ false = ground (arith, ltb→lt 0 s.num pos) in
      rw pos (rw over refl)
  | inr none_there ↦ rw none_there refl
]

nothing_alerts : (metric : Metric) (t : AlertThreshold) → evaluate_metric metric t 0 0 ≡ none
nothing_alerts error_rate t = refl
nothing_alerts failure_count t =
    rw (nothing_reaches t.critical) (rw (nothing_reaches t.warning) refl)
nothing_alerts budget_usage t = refl

-- In a log that only `Auditor.record` has filled, with no call on a later day than the one on which the
-- window of a threshold begins, no alert comes, whichever calls of that day have failed since the window
-- began. (The texts of their times are below the text of the begin of the window.)
pub same_day_unseen :
    (now : ℕ) (t : AlertThreshold) (tenant : String) (calls : List Audited)
    → every (λ c. leb (c.time / day) ((now - t.window_minutes * 60) / day)) calls ≡ true
    → evaluate_threshold now t tenant (record_all calls []) ≡ none
unfolding evaluate_threshold
same_day_unseen now t tenant calls h =
    let since = now - t.window_minutes * 60 in
    let before = all_before-record_all since calls [] h refl in
    let total : total_in since tenant (record_all calls []) ≡ 0 =
      none_in since (in_window since tenant) (record_all calls []) (λ r e. ground (arith, e))
        before in
    let failed : failed_in since tenant (record_all calls []) ≡ 0 =
      none_in since (λ r. in_window since tenant r && not r.success) (record_all calls [])
        (λ r e. ground (arith, e)) before in
    rw total (rw failed (nothing_alerts t.metric t))

-- Two times that `isoformat` wrote compare as the times do.
at_least-isoformat : (time since : ℕ) → at_least (isoformat time) (isoformat since) ≡ leb since time
at_least-isoformat time since = elim (Bool-cases (leb since time)) [
  | inl later ↦ ground (arith, later)
  | inr early ↦ ground (arith, early)
]
