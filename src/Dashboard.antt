-- ===== src/Dashboard.antt =====
-- internal/dashboard: the state that the dashboard keeps in memory.
pub mod Registration
pub mod Monitor
pub mod Version
