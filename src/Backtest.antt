-- ===== src/Backtest.antt =====
-- internal/adapters/backtest/adapter.go: the simulated account and the run over a bar series.
pub mod Account
pub mod Run
