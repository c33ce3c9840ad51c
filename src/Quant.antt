-- ===== src/Quant.antt =====
-- internal/quant: the data of the strategy and the pure computations on it. Each child models one
-- file of the package.
pub mod Data
pub mod Calendar
pub mod Maths
pub mod Genome
pub mod Lot
pub mod Market
pub mod Macro
pub mod Micro
pub mod Drawdown
pub mod Dietz
pub mod Ghost
pub mod Crucible
