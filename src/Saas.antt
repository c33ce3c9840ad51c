-- ===== src/Saas.antt =====
-- The server: its rows, the reports of agents, and the instances.
pub mod Store
pub mod DeltaReport
pub mod Lifecycle
pub mod Ledger
pub mod Dispatch
pub mod Load
pub mod Tick
pub mod Cron
pub mod Candles
pub mod Booking
pub mod Hub
pub mod Lab
