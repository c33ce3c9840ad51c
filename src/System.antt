-- ===== src/System.antt =====
-- The server and an agent together: the messages of internal/saas and internal/agent/ws.
pub mod Messages
pub mod Handshake
pub mod Filled
pub mod Orders
pub mod Dispatched
