-- ===== src/Backtest/Run/Warmup.antt =====
-- internal/adapters/backtest/adapter.go: bars before the evaluation only warm the strategy up.
use trandingnok.Base.{◌≡◌, false, List, [], ◌∷◌, arith, All, leb_ℤ}
use trandingnok.Float.{Float64}
use trandingnok.Quant.Data.{Bar}
use trandingnok.Strategy.Types.{Strategy}
use trandingnok.Backtest.Run.{
  Config, RunState, start_state, push_bar, enter_eval, inject, trade, run_bar, run_bars,
  zero_metrics, metrics_of, run_backtest,
}

module _ {R : Type 0} ⦃f : Float64 R⦄ (cfg : Config R) (strat : Strategy R) where
  -- A bar before the evaluation.
  abbrev pub IsWarmup : Bar R → Type 0
  IsWarmup b = leb_ℤ cfg.eval_start_ms b.open_time ≡ false

  -- Nothing has been traded.
  pub record Untouched (s : RunState R) : Type 0 where
    pub waiting : s.in_eval ≡ false
    pub account : s.portfolio ≡ (start_state cfg).portfolio
    pub curve : s.nav_curve ≡ []
    pub flows : s.flows ≡ []

  run_bar-Untouched :
      (b : Bar R) (s : RunState R) → IsWarmup b → Untouched s → Untouched (run_bar cfg strat b s)
  unfolding run_bar push_bar enter_eval inject trade
  run_bar-Untouched b s w h = ground arith

  -- Over bars before the evaluation start no order of the strategy is carried out, nothing is
  -- injected and no value is recorded.
  pub run_bars-Untouched :
      (bars : List (Bar R))
      → All IsWarmup bars
      → Untouched (run_bars cfg strat bars (start_state cfg))
  unfolding run_bars
  run_bars-Untouched bars w = go bars (start_state cfg) w (ground arith)
    where
      go :
          (bars : List (Bar R)) (s : RunState R)
          → All IsWarmup bars
          → Untouched s
          → Untouched (run_bars cfg strat bars s)
      go [] s w h = h
      go (b ∷ bars) s (w, ws) h = go bars (run_bar cfg strat b s) ws (run_bar-Untouched b s w h)

  -- A run that never reaches its evaluation start has no figures, whatever the strategy decides.
  pub run_backtest-warmup : All IsWarmup cfg.bars → run_backtest cfg strat ≡ zero_metrics
  unfolding run_backtest metrics_of
  run_backtest-warmup w = let u = run_bars-Untouched cfg.bars w in ground arith
