-- ===== src/Agent.antt =====
-- The local agent: internal/agent.
pub mod Exchange
pub mod Client
