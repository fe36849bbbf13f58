-- ===== src/Agent.antt =====
-- internal/agent: what an agent does on its host.
pub mod Whitelist
pub mod Images
pub mod Executor
