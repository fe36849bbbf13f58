-- ===== src/Alerting.antt =====
-- internal/dashboard/alerting: the alert engine.
pub mod Rules
pub mod Process
pub mod Defaults
pub mod Evaluate
pub mod Hydrate
pub mod Regression
