-- ===== src/Examples/Plans.antt =====
-- Runs of the plan builder.
use trandingnok.Base.{◌≡◌, refl, List, [], ◌∷◌, map, arith}
use trandingnok.Float.Fixed.{Fixed, fixed_float}
use trandingnok.Float.{lit}
use trandingnok.Examples.Sample.{dec, bar_at, spawn}
use trandingnok.Quant.Data.{Bar, last_bar}
use trandingnok.Quant.Ghost.{simulate_ghost_dca}
use trandingnok.Ga.Plan.{KLine, EpochConfig, klines_to_bars, bars_from, build_plan}
use trandingnok.Ga.Plan.Fair.{build_plan-baselines}

abbrev candle : Bar Fixed → KLine Fixed
candle b = record {
  open_time = b.open_time;
  open_price = b.open_price;
  high = b.high;
  low = b.low;
  close = b.close;
  volume = b.volume;
}

abbrev settings : EpochConfig Fixed
settings = record { symbol = "BTCUSDT"; lot_step = lit 1 3; lot_min = lit 1 3; spawn_point = spawn }

abbrev history : List (KLine Fixed)
history = candle (bar_at 0 100) ∷ candle (bar_at 300 110) ∷ candle (bar_at 400 120) ∷ []

build_plan-baselines_example :
    let plan = build_plan "sigmoid_dca" settings history in
    plan.dca_baselines
    ≡ map
        (λ w.
          simulate_ghost_dca
            (record { initial_capital = dec 1000; monthly_inject = dec 0 })
            (bars_from (bar_at 0 100 ∷ bar_at 300 110 ∷ bar_at 400 120 ∷ []) w.eval_start_ms))
        plan.windows
unfolding last_bar klines_to_bars
build_plan-baselines_example =
    build_plan-baselines "sigmoid_dca" settings (bar_at 0 100)
      (bar_at 300 110 ∷ bar_at 400 120 ∷ []) history refl (omega arith, omega arith)
      (omega arith, omega arith) (omega arith)
