-- ===== src/Ga.antt =====
-- internal/saas/ga: the evolvable strategy and the evolution engine.
pub mod Plan
pub mod Random
pub mod Evolvable
pub mod Engine
pub mod Epoch
