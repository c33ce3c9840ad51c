-- ===== src/Strategy.antt =====
-- internal/strategy and internal/strategies/sigmoid_dca: the strategy interface and its one
-- implementation.
pub mod Types
pub mod SigmoidDca
