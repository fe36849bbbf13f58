-- ===== src/Ws.antt =====
-- internal/dashboard/ws: the connections of agents and browsers.
pub mod AgentAuth
pub mod Hub
pub mod Commands
