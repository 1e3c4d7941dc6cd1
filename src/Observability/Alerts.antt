-- ===== src/Observability/Alerts.antt =====
-- sccsos/observability/alert_manager.py: `AlertManager` on the table `audit_log`, with the statement of
-- sccsos/observability/auditor.py that fills it. A threshold and a value are exact fractions (`Share`)
-- where the source has floats. A time is in seconds. The texts of messages and logs are left out. The
-- database is SQLite, which keeps the time of a row as text (`Stamp`): in the form of
-- `CURRENT_TIMESTAMP` where `Auditor.record` wrote the row, in any form where others did.
pub mod Levels
pub mod Unseen
mod Examples
use sccsos.Prelude.{
  ℕ, ◌%◌, ◌==◌, ◌-◌, ◌*◌, ◌/◌, String, Bool, true, false, not, ◌&&◌, Option, none, some, List, [],
  ◌∷◌, ◌++◌, length, keep, if◌then◌else◌, str_eq, ltb, leb,
}

pub record Share : Type 0 where
  pub num : ℕ
  pub den : ℕ

pub data Metric : Type 0 where
  error_rate failure_count budget_usage : Metric

pub record AlertThreshold : Type 0 where
  pub metric : Metric
  pub warning : Share
  pub critical : Share
  pub window_minutes : ℕ

pub data Level : Type 0 where
  warning_level critical_level : Level

pub record AlertResult : Type 0 where
  pub level : Level
  pub metric : Metric
  pub value : Share
  pub threshold : Share

-- The text of a time: the date, the character behind it by its code point, and the time of the day.
-- Each part has a fixed width, so texts compare part by part.
pub record Stamp : Type 0 where
  pub date : ℕ
  pub mark : ℕ
  pub clock : ℕ

-- A row of `audit_log`
pub record AuditEntry : Type 0 where
  pub timestamp : Stamp
  pub tenant_id : String
  pub success : Bool

-- A call of the webhook, and the two things that `AlertManager` holds
pub record Notice : Type 0 where
  pub run_id : String
  pub alert : AlertResult

pub record AlertManager : Type 0 where
  pub thresholds : List AlertThreshold
  pub webhook_enabled : Bool
  pub fired : List Notice

abbrev pub default_thresholds : List AlertThreshold
default_thresholds =
    record {
      metric = error_rate;
      warning = record { num = 1; den = 10 };
      critical = record { num = 3; den = 10 };
      window_minutes = 60;
    }
    ∷ record {
      metric = failure_count;
      warning = record { num = 5; den = 1 };
      critical = record { num = 20; den = 1 };
      window_minutes = 60;
    }
    ∷ []

-- `threshold > 0 and value >= threshold`
abbrev pub reaches : Share → Share → Bool
reaches value t = ltb 0 t.num && leb (t.num * value.den) (value.num * t.den)

-- `_get_level`
abbrev pub get_level : Share → AlertThreshold → Option Level
get_level value t =
    if reaches value t.critical
    then some critical_level
    else if reaches value t.warning
    then some warning_level
    else none

abbrev pub day : ℕ
day = 86400

-- `datetime.isoformat`, with the letter T behind the date
abbrev pub isoformat : ℕ → Stamp
isoformat time = record { date = time / day; mark = 84; clock = time % day }

-- SQLite's `CURRENT_TIMESTAMP`, with a blank behind the date
abbrev pub current_timestamp : ℕ → Stamp
current_timestamp time = record { date = time / day; mark = 32; clock = time % day }

-- `>=` on the texts
abbrev pub at_least : Stamp → Stamp → Bool
at_least x y =
    if x.date == y.date
    then if x.mark == y.mark then leb y.clock x.clock else ltb y.mark x.mark
    else ltb y.date x.date

-- A call that `Auditor.record` is given, and when
pub record Audited : Type 0 where
  pub time : ℕ
  pub tenant_id : String
  pub success : Bool

-- `Auditor.record`: the column `timestamp` is not named, so it gets its default `CURRENT_TIMESTAMP`.
abbrev pub record_entry : Audited → List AuditEntry → List AuditEntry
record_entry c log =
    log
    ++ record { timestamp = current_timestamp c.time; tenant_id = c.tenant_id; success = c.success }
      ∷ []

abbrev pub record_all : List Audited → List AuditEntry → List AuditEntry
record_all [] log = log
record_all (c ∷ cs) log = record_all cs (record_entry c log)

-- The `WHERE` clauses of the two counts
abbrev pub in_window : ℕ → String → AuditEntry → Bool
in_window since tenant r = at_least r.timestamp (isoformat since) && str_eq r.tenant_id tenant

abbrev pub total_in : ℕ → String → List AuditEntry → ℕ
total_in since tenant log = length (keep (in_window since tenant) log)

abbrev pub failed_in : ℕ → String → List AuditEntry → ℕ
failed_in since tenant log = length (keep (λ r. in_window since tenant r && not r.success) log)

-- An alert at a level, with the threshold of the level
abbrev pub alert_at : Metric → Share → AlertThreshold → Option Level → Option AlertResult
alert_at metric value t none = none
alert_at metric value t (some warning_level) =
    some (record { level = warning_level; metric = metric; value = value; threshold = t.warning })
alert_at metric value t (some critical_level) =
    some (record { level = critical_level; metric = metric; value = value; threshold = t.critical })

abbrev pub evaluate_metric : Metric → AlertThreshold → ℕ → ℕ → Option AlertResult
evaluate_metric error_rate t total failed =
    let value : Share = record { num = failed; den = total } in
    if ltb 0 total then alert_at error_rate value t (get_level value t) else none
evaluate_metric failure_count t total failed =
    let value : Share = record { num = failed; den = 1 } in
    alert_at failure_count value t (get_level value t)
evaluate_metric budget_usage t total failed = none

-- `_evaluate_threshold`
unfoldable pub evaluate_threshold :
    ℕ → AlertThreshold → String → List AuditEntry → Option AlertResult
evaluate_threshold now t tenant log =
    let since = now - t.window_minutes * 60 in
    evaluate_metric t.metric t (total_in since tenant log) (failed_in since tenant log)

-- `_fire_alert`
abbrev pub fire_alert : AlertResult → String → AlertManager → AlertManager
fire_alert alert run_id m =
    if m.webhook_enabled
    then record m { fired = m.fired ++ record { run_id = run_id; alert = alert } ∷ [] }
    else m

abbrev pub with_alert :
    Option AlertResult
    → String
    → (AlertManager → List AlertResult × AlertManager)
    → AlertManager
    → List AlertResult × AlertManager
with_alert none run_id more m = more m
with_alert (some a) run_id more m =
    (a ∷ (more (fire_alert a run_id m)).0, (more (fire_alert a run_id m)).1)

abbrev pub evaluate_each :
    ℕ
    → String
    → String
    → List AuditEntry
    → List AlertThreshold
    → AlertManager
    → List AlertResult × AlertManager
evaluate_each now run_id tenant log [] m = ([], m)
evaluate_each now run_id tenant log (t ∷ ts) m =
    with_alert (evaluate_threshold now t tenant log) run_id
      (λ n. evaluate_each now run_id tenant log ts n) m

unfoldable pub evaluate_after_run :
    ℕ → String → String → List AuditEntry → AlertManager → List AlertResult × AlertManager
unfolding evaluate_threshold
evaluate_after_run now run_id tenant log m = evaluate_each now run_id tenant log m.thresholds m

unfoldable pub evaluate_global :
    ℕ → String → List AuditEntry → AlertManager → List AlertResult × AlertManager
unfolding evaluate_after_run
evaluate_global now tenant log m = evaluate_after_run now "healthcheck" tenant log m
