-- ===== src/Strategy/Types.antt =====
-- internal/strategy/step.go: what a strategy is given and what it decides.
use trandingnok.Base.{List, ℤ}
use trandingnok.Quant.Data.{PortfolioState, RuntimeState, TradeIntent}
use trandingnok.Quant.Genome.{Chromosome, SpawnPoint}

pub record StrategyInput (R : Type 0) : Type 0 where
  pub closes : List R
  pub highs : List R
  pub lows : List R
  pub timestamps : List ℤ
  pub portfolio : PortfolioState R
  pub runtime : RuntimeState R
  pub params : Chromosome R
  pub spawn_point : SpawnPoint R

pub record StrategyOutput (R : Type 0) : Type 0 where
  pub intents : List (TradeIntent R)
  pub runtime : RuntimeState R

-- `Strategy`: its one method `Step` is a pure function.
abbrev pub Strategy : Type 0 → Type 0
Strategy R = StrategyInput R → StrategyOutput R
