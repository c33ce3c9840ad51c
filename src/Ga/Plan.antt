-- ===== src/Ga/Plan.antt =====
-- internal/saas/ga/engine.go: buildPlan, and what it builds the windows and baselines from.
use trandingnok.Base.{List, [], ◌∷◌, map, String, if◌then◌else◌, ℤ, leb_ℤ}
use trandingnok.Float.{Float64}
pub mod Fair
use trandingnok.Quant.Data.{Bar}
use trandingnok.Quant.Genome.{SpawnPoint}
use trandingnok.Quant.Crucible.{CrucibleWindow, default_warmup_days, build_crucible_windows}
use trandingnok.Quant.Ghost.{GhostDcaResult, simulate_ghost_dca}
use trandingnok.Ga.Evolvable.{EvaluablePlan}

-- `store.KLine`: a stored candle, its time in milliseconds.
pub record KLine (R : Type 0) : Type 0 where
  pub open_time : ℤ
  pub open_price : R
  pub high : R
  pub low : R
  pub close : R
  pub volume : R

-- The settings of `EpochConfig` that the plan is built from.
pub record EpochConfig (R : Type 0) : Type 0 where
  pub symbol : String
  pub lot_step : R
  pub lot_min : R
  pub spawn_point : SpawnPoint R

module _ {R : Type 0} where
  -- `klinesToBars`.
  unfoldable pub klines_to_bars : List (KLine R) → List (Bar R)
  klines_to_bars = map (λ k. record {
    open_time = k.open_time;
    open_price = k.open_price;
    high = k.high;
    low = k.low;
    close = k.close;
    volume = k.volume;
  })

  -- `barsFrom`.
  unfoldable pub bars_from : List (Bar R) → ℤ → List (Bar R)
  bars_from [] from_ms = []
  bars_from (b ∷ bars) from_ms =
      if leb_ℤ from_ms b.open_time then b ∷ bars else bars_from bars from_ms

module _ {R : Type 0} ⦃f : Float64 R⦄ where
  -- The baseline of a window.
  unfoldable pub baseline_of : SpawnPoint R → CrucibleWindow R → GhostDcaResult R
  baseline_of spawn w =
      simulate_ghost_dca
        (record { initial_capital = spawn.initial_capital; monthly_inject = spawn.monthly_inject })
        (bars_from w.bars w.eval_start_ms)

  -- `buildPlan`, from the candles that the query returns, in the order of their times.
  unfoldable pub build_plan : String → EpochConfig R → List (KLine R) → EvaluablePlan R
  build_plan template_name cfg klines =
      let windows = build_crucible_windows (klines_to_bars klines) default_warmup_days in
      record {
        pair = cfg.symbol;
        template_name = template_name;
        spawn = cfg.spawn_point;
        lot_step = cfg.lot_step;
        lot_min = cfg.lot_min;
        windows = windows;
        dca_baselines = map (baseline_of cfg.spawn_point) windows;
      }
