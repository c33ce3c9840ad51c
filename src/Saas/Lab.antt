-- ===== src/Saas/Lab.antt =====
-- internal/saas/store/models.go: the rows of the evolution, gene records and tasks, and the query
-- for a strategy's champion.
pub mod Champion
pub mod Challenger
pub mod Promote
pub mod Spawn
pub mod Service
pub mod Tasks
use trandingnok.Base.{
  ℕ, Bool, true, false, ◌&&◌, Option, none, some, List, [], ◌∷◌, String, ◌==◌, if◌then◌else◌, ℤ,
  ltb_ℤ,
}

-- `GeneRecord.Role`.
pub data Role : Type 0 where
  challenger : Role
  champion : Role
  retired : Role

abbrev pub is_champion : Role → Bool
is_champion champion = true
is_champion _ = false

abbrev pub is_challenger : Role → Bool
is_challenger challenger = true
is_challenger _ = false

pub record GeneRecord (R : Type 0) : Type 0 where
  pub id : ℕ
  pub created_at : ℤ
  pub strategy_id : ℕ
  pub task_id : ℕ
  pub role : Role
  pub param_pack : String
  pub score_total : R
  pub max_drawdown : R
  pub window_scores : String

-- `EvolutionTask.Status`.
pub data TaskStatus : Type 0 where
  pending : TaskStatus
  running : TaskStatus
  done : TaskStatus
  failed : TaskStatus

abbrev pub is_running : TaskStatus → Bool
is_running running = true
is_running _ = false

pub record EvolutionTask (R : Type 0) : Type 0 where
  pub id : ℕ
  pub strategy_id : ℕ
  pub status : TaskStatus
  pub progress : R
  pub current_generation : ℕ
  pub best_score : R
  pub error_msg : String
  pub config : String

module _ {R : Type 0} where
  -- "strategy_id = ? AND role = champion".
  abbrev pub champion_of : ℕ → GeneRecord R → Bool
  champion_of id g = g.strategy_id == id && is_champion g.role

  -- "task_id = ? AND role = challenger".
  abbrev pub challenger_of : ℕ → GeneRecord R → Bool
  challenger_of id g = g.task_id == id && is_challenger g.role

  abbrev pub newer : GeneRecord R → Option (GeneRecord R) → GeneRecord R
  newer g none = g
  newer g (some h) = if ltb_ℤ g.created_at h.created_at then h else g

  -- `Order("created_at desc").First`: the newest of the rows that meet a condition.
  unfoldable pub newest : (GeneRecord R → Bool) → List (GeneRecord R) → Option (GeneRecord R)
  newest p [] = none
  newest p (g ∷ gs) = let rest = newest p gs in if p g then some (newer g rest) else rest
