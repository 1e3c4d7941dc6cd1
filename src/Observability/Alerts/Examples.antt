-- ===== src/Observability/Alerts/Examples.antt =====
-- A log of one tenant with calls that failed.
use sccsos.Prelude.{ℕ, String, ◌≡◌, ◌≤◌, refl, true, false, none, some, List, [], ◌∷◌, ◌++◌}
use sccsos.Observability.Alerts.{
  AlertThreshold, AuditEntry, Audited, AlertManager, isoformat, record_all, critical_level,
  default_thresholds, error_rate, warning_level, evaluate_threshold, evaluate_after_run,
}
use sccsos.Observability.Alerts.Levels.{severity, failure_raises}
use sccsos.Observability.Alerts.Unseen.{same_day_unseen}

abbrev call_of : ℕ → String → AuditEntry
call_of time tenant = record { timestamp = isoformat time; tenant_id = tenant; success = false }

abbrev good_call : AuditEntry
good_call = record { timestamp = isoformat 86500; tenant_id = "t1"; success = true }

abbrev log : List AuditEntry
log = good_call ∷ good_call ∷ good_call ∷ call_of 86600 "t1" ∷ []

abbrev rates : AlertThreshold
rates = record {
  metric = error_rate;
  warning = record { num = 1; den = 10 };
  critical = record { num = 3; den = 10 };
  window_minutes = 60;
}

abbrev manager : AlertManager
manager = record { thresholds = default_thresholds; webhook_enabled = true; fired = [] }

one_alert :
    (evaluate_after_run 88000 "wf_1" "t1" log manager).0
    ≡ record {
      level = warning_level;
      metric = error_rate;
      value = record { num = 1; den = 4 };
      threshold = record { num = 1; den = 10 };
    }
      ∷ []
unfolding evaluate_after_run
one_alert = refl

failure_raises_example :
    severity (evaluate_threshold 88000 rates "t1" log)
    ≤ severity (evaluate_threshold 88000 rates "t1" (log ++ call_of 86700 "t1" ∷ []))
failure_raises_example = failure_raises 88000 rates "t1" log (call_of 86700 "t1") refl refl

-- At ten in the morning, with a log that has failures of the last minutes
abbrev calls : List Audited
calls =
    record { time = 122300; tenant_id = "t1"; success = false }
    ∷ record { time = 122350; tenant_id = "t1"; success = false }
    ∷ []

same_day_unseen_example : evaluate_threshold 122400 rates "t1" (record_all calls []) ≡ none
same_day_unseen_example = same_day_unseen 122400 rates "t1" calls refl

-- The same failures in rows with times of `isoformat`
same_day_seen :
    evaluate_threshold 122400 rates "t1" (call_of 122300 "t1" ∷ call_of 122350 "t1" ∷ [])
    ≡ some (record {
      level = critical_level;
      metric = error_rate;
      value = record { num = 2; den = 2 };
      threshold = record { num = 3; den = 10 };
    })
unfolding evaluate_threshold
same_day_seen = refl
