-- ===== src/Observability.antt =====
-- What watches the system: the alerts on its audit log.
pub mod Alerts
