-- ===== src/Backtest/Run.antt =====
-- internal/adapters/backtest/adapter.go: RunBacktest.
pub mod Series
pub mod Warmup
use trandingnok.Base.{
  ℕ, ◌-◌, ◌*◌, Bool, true, false, not, ◌&&◌, ◌||◌, List, [], ◌∷◌, ◌++◌, ◌==◌, if◌then◌else◌, length,
  get_or, ℤ, pos, ◌-ℤ◌, leb_ℤ, quot_ℤ, wrap64,
}
use trandingnok.Float.{Float64, ◌⊕◌, ◌≺◌, ◌≼◌, nought}
use trandingnok.Quant.Data.{Bar, PortfolioState, RuntimeState, MonthStr, eqb_month}
use trandingnok.Quant.Calendar.{month_key}
use trandingnok.Quant.Genome.{Chromosome, SpawnPoint}
use trandingnok.Quant.Lot.{nav_at}
use trandingnok.Quant.Drawdown.{max_drawdown}
use trandingnok.Quant.Dietz.{CashFlow, sum_flows, dietz_roi}
use trandingnok.Strategy.Types.{StrategyInput, Strategy}
use trandingnok.Backtest.Account.{Fees, respend, apply_intents}

pub record Config (R : Type 0) : Type 0 where
  pub bars : List (Bar R)
  pub eval_start_ms : ℤ
  pub chromosome : Chromosome R
  pub spawn_point : SpawnPoint R
  pub fees : Fees R

pub record Metrics (R : Type 0) : Type 0 where
  pub final_equity : R
  pub max_drawdown : R
  pub roi : R

-- The variables of the loop over the bars.
pub record RunState (R : Type 0) : Type 0 where
  pub portfolio : PortfolioState R
  pub runtime : RuntimeState R
  pub closes : List R
  pub highs : List R
  pub lows : List R
  pub timestamps : List ℤ
  pub in_eval : Bool
  pub eval_first_ms : ℤ
  pub eval_last_ms : ℤ
  pub prev_month_key : MonthStr
  pub flows : List (CashFlow R)
  pub nav_curve : List R

abbrev ms_per_day : ℕ
ms_per_day = 24 * 60 * 60 * 1000

-- Whole days between two times.
days_between : ℤ → ℤ → ℤ
unfolding ◌-ℤ◌ wrap64 quot_ℤ
days_between from to = quot_ℤ (wrap64 (to -ℤ from)) ms_per_day

module _ {R : Type 0} ⦃f : Float64 R⦄ where
  abbrev pub start_state : Config R → RunState R
  start_state cfg = record {
    portfolio = record {
      total_usdt = nought;
      reserve_floor = cfg.spawn_point.reserve_floor;
      spendable_usdt = nought;
      dead_stack = nought;
      float_stack = nought;
      cold_sealed_stack = nought;
      nav_initial = cfg.spawn_point.initial_capital;
    };
    runtime = record {
      ema200 = nought;
      ema200_history = [];
      month_high = nought;
      month_str = MonthStr.unset;
      triggered_tiers = [];
      stop_loss_hit = false;
    };
    closes = [];
    highs = [];
    lows = [];
    timestamps = [];
    in_eval = false;
    eval_first_ms = pos 0;
    eval_last_ms = pos 0;
    prev_month_key = MonthStr.unset;
    flows = [];
    nav_curve = [];
  }

  -- The bar joins the series.
  unfoldable pub push_bar : Bar R → RunState R → RunState R
  push_bar bar s = record s {
    closes = s.closes ++ (bar.close ∷ []);
    highs = s.highs ++ (bar.high ∷ []);
    lows = s.lows ++ (bar.low ∷ []);
    timestamps = s.timestamps ++ (bar.open_time ∷ []);
  }

  -- The transition into the evaluation period seeds the portfolio once.
  unfoldable pub enter_eval : Config R → Bar R → RunState R → RunState R
  enter_eval cfg bar s =
      if not s.in_eval && leb_ℤ cfg.eval_start_ms bar.open_time
      then record s {
        in_eval = true;
        eval_first_ms = bar.open_time;
        portfolio = respend (record (s.portfolio) { total_usdt = cfg.spawn_point.initial_capital });
        prev_month_key = month_key bar.open_time;
      }
      else s

  -- The injection at a month boundary.
  unfoldable pub inject : Config R → Bar R → RunState R → RunState R
  unfolding days_between
  inject cfg bar s =
      if s.in_eval
      then (let s' = record s { eval_last_ms = bar.open_time } in
          let mk = month_key bar.open_time in
          let inj = cfg.spawn_point.monthly_inject in
          if not (eqb_month mk s.prev_month_key) && nought ≺ inj
          then record s' {
            prev_month_key = mk;
            portfolio =
                respend (record (s.portfolio) { total_usdt = s.portfolio.total_usdt ⊕ inj });
            flows =
                s.flows
                ++ (record { day = days_between s.eval_first_ms bar.open_time; amount = inj } ∷ []);
          }
          else s')
      else s

  abbrev pub input_of : Config R → RunState R → StrategyInput R
  input_of cfg s = record {
    closes = s.closes;
    highs = s.highs;
    lows = s.lows;
    timestamps = s.timestamps;
    portfolio = s.portfolio;
    runtime = s.runtime;
    params = cfg.chromosome;
    spawn_point = cfg.spawn_point;
  }

  -- The call of the strategy, and its intents during the evaluation period.
  unfoldable pub trade : Config R → Strategy R → Bar R → RunState R → RunState R
  trade cfg strat bar s =
      let out = strat (input_of cfg s) in
      if s.in_eval && nought ≺ bar.close
      then (let p = apply_intents out.intents s.portfolio bar.close cfg.fees in
          record s {
            runtime = out.runtime;
            portfolio = p;
            nav_curve = s.nav_curve ++ (nav_at p bar.close ∷ []);
          })
      else record s { runtime = out.runtime }

  -- One round of the loop.
  unfoldable pub run_bar : Config R → Strategy R → Bar R → RunState R → RunState R
  run_bar cfg strat bar s =
      trade cfg strat bar (inject cfg bar (enter_eval cfg bar (push_bar bar s)))

  unfoldable pub run_bars : Config R → Strategy R → List (Bar R) → RunState R → RunState R
  run_bars cfg strat [] s = s
  run_bars cfg strat (bar ∷ bars) s = run_bars cfg strat bars (run_bar cfg strat bar s)

  abbrev pub zero_metrics : Metrics R
  zero_metrics = record { final_equity = nought; max_drawdown = nought; roi = nought }

  -- The figures of a finished run.
  unfoldable pub metrics_of : Config R → RunState R → Metrics R
  unfolding days_between
  metrics_of cfg s =
      if length s.nav_curve == 0
      then zero_metrics
      else (let final_equity = get_or s.nav_curve (length s.nav_curve - 1) nought in
          let v_start = cfg.spawn_point.initial_capital in
          let total_days = days_between s.eval_first_ms s.eval_last_ms in
          let (sum_f, weighted_f) = sum_flows total_days nought nought s.flows in
          record {
            final_equity = final_equity;
            max_drawdown = max_drawdown s.nav_curve;
            roi = dietz_roi v_start final_equity sum_f weighted_f;
          })

  -- `RunBacktest`.
  unfoldable pub run_backtest : Config R → Strategy R → Metrics R
  run_backtest cfg strat =
      if length cfg.bars == 0 || cfg.spawn_point.initial_capital ≼ nought
      then zero_metrics
      else metrics_of cfg (run_bars cfg strat cfg.bars (start_state cfg))
