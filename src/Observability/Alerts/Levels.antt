-- ===== src/Observability/Alerts/Levels.antt =====
-- How the alerts follow the audit log.
use native.Mathlib.Nat.{mul-le-mul_right, mul-lt-mul_of_pos_right, mul_comm}
use sccsos.Prelude.{
  ℕ, ◌+◌, ◌-◌, ◌*◌, ◌≤◌, ◌<◌, String, ◌≡◌, refl, Bool, true, false, not, ◌&&◌, Option, none, some,
  List, [], ◌∷◌, ◌++◌, length, keep, if◌then◌else◌, ltb, leb, leb→le, arith, inl, inr, Bool-cases,
}
use sccsos.Observability.Alerts.{
  Share, Metric, error_rate, failure_count, budget_usage, AlertThreshold, Level, warning_level,
  critical_level, AlertResult, AuditEntry, reaches, get_level, in_window, total_in, failed_in,
  alert_at, evaluate_metric, evaluate_threshold,
}

-- A share of at most 1 does not fall when one more counts on both sides.
rate_keeps : (num den f t : ℕ) → f ≤ t → 0 < t → num * t ≤ f * den → num * (t + 1) ≤ (f + 1) * den
rate_keeps num den f t h p r = elim (Bool-cases (leb num den)) [
  | inl small ↦ omega (arith, leb→le num den small, r)
  | inr large ↦
      let big : den < num = ground (arith, large) in
      absurd
        (omega (arith, r, mul-le-mul_right den h, mul-lt-mul_of_pos_right big p, mul_comm den t))
]

reaches-rate :
    (f t : ℕ) (s : Share)
    → f ≤ t
    → 0 < t
    → reaches (record { num = f; den = t }) s ≡ true
    → reaches (record { num = f + 1; den = t + 1 }) s ≡ true
reaches-rate f t s h p r =
    let old : s.num * t ≤ f * s.den = leb→le (s.num * t) (f * s.den) (ground (arith, r)) in
    let new = rate_keeps s.num s.den f t h p old in ground (arith, r, new)

reaches-count :
    (f : ℕ) (s : Share)
    → reaches (record { num = f; den = 1 }) s ≡ true
    → reaches (record { num = f + 1; den = 1 }) s ≡ true
reaches-count f s r =
    let old : s.num * 1 ≤ f * s.den = leb→le (s.num * 1) (f * s.den) (ground (arith, r)) in
    let new : s.num * 1 ≤ (f + 1) * s.den = omega (arith, old) in ground (arith, r, new)

abbrev level_rank : Option Level → ℕ
level_rank none = 0
level_rank (some warning_level) = 1
level_rank (some critical_level) = 2

-- How bad an outcome is: no alert, a warning, or a critical alert
abbrev pub severity : Option AlertResult → ℕ
severity none = 0
severity (some a) = level_rank (some a.level)

alert_at-severity :
    (m : Metric) (v : Share) (t : AlertThreshold) (l : Option Level)
    → severity (alert_at m v t l) ≡ level_rank l
alert_at-severity m v t none = refl
alert_at-severity m v t (some warning_level) = refl
alert_at-severity m v t (some critical_level) = refl

rank_mono :
    (a b c d : Bool)
    → (a ≡ true → c ≡ true)
    → (b ≡ true → d ≡ true)
    → level_rank (if a then some critical_level else if b then some warning_level else none)
      ≤ level_rank (if c then some critical_level else if d then some warning_level else none)
rank_mono false false c d h k = omega arith
rank_mono true b true d h k = omega arith
rank_mono true b false d h k = absurd (cc (h refl))
rank_mono false true true d h k = omega arith
rank_mono false true false true h k = omega arith
rank_mono false true false false h k = absurd (cc (k refl))

get_level-rank :
    (v w : Share) (t : AlertThreshold)
    → ((s : Share) → reaches v s ≡ true → reaches w s ≡ true)
    → level_rank (get_level v t) ≤ level_rank (get_level w t)
get_level-rank v w t h =
    rank_mono (reaches v t.critical) (reaches v t.warning) (reaches w t.critical)
      (reaches w t.warning) (h t.critical) (h t.warning)

alert_at_mono :
    (m n : Metric) (v w : Share) (t : AlertThreshold)
    → ((s : Share) → reaches v s ≡ true → reaches w s ≡ true)
    → severity (alert_at m v t (get_level v t)) ≤ severity (alert_at n w t (get_level w t))
alert_at_mono m n v w t h = omega (
  arith,
  alert_at-severity m v t (get_level v t),
  alert_at-severity n w t (get_level w t),
  get_level-rank v w t h,
)

evaluate_metric_mono :
    (metric : Metric) (t : AlertThreshold) (total failed : ℕ)
    → failed ≤ total
    → severity (evaluate_metric metric t total failed)
      ≤ severity (evaluate_metric metric t (total + 1) (failed + 1))
evaluate_metric_mono error_rate t total failed h =
    let more : ltb 0 (total + 1) ≡ true = ground arith in
    elim (Bool-cases (ltb 0 total)) [
      | inl seen ↦ rw seen (
          rw more (
            alert_at_mono error_rate error_rate (record { num = failed; den = total })
              (record { num = failed + 1; den = total + 1 }) t
              (λ s r. reaches-rate failed total s h (ground (arith, seen)) r)))
      | inr empty ↦ rw empty (omega arith)
    ]
evaluate_metric_mono failure_count t total failed h =
    alert_at_mono failure_count failure_count (record { num = failed; den = 1 })
      (record { num = failed + 1; den = 1 }) t (λ s r. reaches-count failed s r)
evaluate_metric_mono budget_usage t total failed h = omega arith

length-keep_last :
    (p : AuditEntry → Bool) (r : AuditEntry) (log : List AuditEntry)
    → length (keep p (log ++ r ∷ [])) ≡ length (keep p log) + (if p r then 1 else 0)
length-keep_last p r [] = ground arith
length-keep_last p r (x ∷ log) = ground (arith, length-keep_last p r log)

failed-total :
    (since : ℕ) (tenant : String) (log : List AuditEntry)
    → failed_in since tenant log ≤ total_in since tenant log
failed-total since tenant [] = omega arith
failed-total since tenant (r ∷ log) = ground (arith, failed-total since tenant log)

-- One more failed call of the tenant within the window of a threshold never makes its alert less severe.
pub failure_raises :
    (now : ℕ) (t : AlertThreshold) (tenant : String) (log : List AuditEntry) (r : AuditEntry)
    → in_window (now - t.window_minutes * 60) tenant r ≡ true
    → r.success ≡ false
    → severity (evaluate_threshold now t tenant log)
      ≤ severity (evaluate_threshold now t tenant (log ++ r ∷ []))
unfolding evaluate_threshold
failure_raises now t tenant log r inside bad =
    let since = now - t.window_minutes * 60 in
    let total : total_in since tenant (log ++ r ∷ []) ≡ total_in since tenant log + 1 =
      ground (arith, length-keep_last (in_window since tenant) r log, inside) in
    let failed : failed_in since tenant (log ++ r ∷ []) ≡ failed_in since tenant log + 1 = ground (
      arith,
      length-keep_last (λ x. in_window since tenant x && not x.success) r log,
      inside,
      bad,
    ) in
    rw total (
      rw failed (
        evaluate_metric_mono t.metric t (total_in since tenant log) (failed_in since tenant log)
          (failed-total since tenant log)))

-- A call outside the window, or of another tenant, plays no part.
outside_unseen :
    (now : ℕ) (t : AlertThreshold) (tenant : String) (log : List AuditEntry) (r : AuditEntry)
    → in_window (now - t.window_minutes * 60) tenant r ≡ false
    → evaluate_threshold now t tenant (log ++ r ∷ []) ≡ evaluate_threshold now t tenant log
unfolding evaluate_threshold
outside_unseen now t tenant log r outside =
    let since = now - t.window_minutes * 60 in
    let total : total_in since tenant (log ++ r ∷ []) ≡ total_in since tenant log =
      ground (arith, length-keep_last (in_window since tenant) r log, outside) in
    let failed : failed_in since tenant (log ++ r ∷ []) ≡ failed_in since tenant log =
      ground
        (arith, length-keep_last (λ x. in_window since tenant x && not x.success) r log, outside) in
    rw total (rw failed refl)
