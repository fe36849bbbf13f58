-- ===== src/Store.antt =====
-- internal/store: the tables that the dashboard keeps in its database.
pub mod Alerts
pub mod Rules
pub mod Settings
pub mod Metrics
pub mod Versions
