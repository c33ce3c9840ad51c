-- ===== src/Saas/Lab/Challenger/Stored.antt =====
-- internal/saas/ga/engine.go: RunEpoch ends, with a challenger unless it is cancelled.
use trandingnok.Base.{
  ℕ, ◌≡◌, ◌≢◌, ◌≤◌, Bool, true, false, ◌||◌, Option, none, some, List, [], ◌∷◌, ◌++◌, All, length,
}
use trandingnok.Float.{Float64, ◌≼◌}
use trandingnok.Quant.Genome.{Chromosome}
use trandingnok.Ga.Evolvable.{Codec, encode_result}
use trandingnok.Ga.Engine.{EvolvableStrategy, Individual}
use trandingnok.Ga.Engine.Ranking.{IsScored}
use trandingnok.Saas.Lab.{challenger, GeneRecord}
use trandingnok.Saas.Lab.Service.{EpochResult}
use trandingnok.Saas.Lab.Challenger.{EpochTask}

module _ {R G : Type 0} ⦃f : Float64 R⦄ (ev : EvolvableStrategy (Chromosome R) G R)
    (codec : Codec R) where
  -- A new challenger of the task is stored and returned, the fittest of a whole population whose
  -- fitnesses are scores of one generation.
  pub record Stored (size most : ℕ) (task : EpochTask R) (genes genes' : List (GeneRecord R))
      (r : EpochResult R) : Type 0 where
    pub c : GeneRecord R
    pub added : genes' ≡ genes ++ (c ∷ [])
    pub fresh : All (λ (h : GeneRecord R). h.id ≢ c.id) genes
    pub role : c.role ≡ challenger
    pub task_id : c.task_id ≡ task.task_id
    pub strategy_id : c.strategy_id ≡ task.strategy_id
    pub best : Individual (Chromosome R) R
    pub pack : c.param_pack ≡ encode_result codec best.gene (some task.spawn)
    pub score : c.score_total ≡ best.fitness
    pub shown : r.best_score ≡ best.fitness
    pub shown_id : r.challenger_id ≡ c.id
    pub few : r.generations ≤ most
    pub others : List (Individual (Chromosome R) R)
    pub whole : length (best ∷ others) ≡ size
    pub gen : ℕ
    pub scored : All (IsScored ev.fingerprint (ev.score gen)) (best ∷ others)
    pub wins : All (λ i. (i.fitness ≼ best.fitness) ≡ true) others

  -- How an epoch on a plan ends.
  pub data EpochEnd (cancelled : ℕ → Bool) (create_fails : Bool) (size most : ℕ)
      (task : EpochTask R) (genes : List (GeneRecord R))
      : Option (List (GeneRecord R) × Option (EpochResult R)) → Type 0 where
    stored :
        (genes' : List (GeneRecord R)) (r : EpochResult R)
        → create_fails ≡ false
        → cancelled r.generations ≡ false
        → Stored size most task genes genes' r
        → EpochEnd cancelled create_fails size most task genes (some (genes', some r))
    lost :
        (n : ℕ)
        → n ≤ most
        → (create_fails || cancelled n) ≡ true
        → EpochEnd cancelled create_fails size most task genes (some (genes, none))
