-- ===== src/Notify.antt =====
-- internal/notify: alerts and the channels that deliver them.
pub mod Alert
pub mod Manager
