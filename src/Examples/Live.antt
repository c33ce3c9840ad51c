-- ===== src/Examples/Live.antt =====
-- Runs of the live tick beside the backtest.
use trandingnok.Base.{◌≡◌, refl, none, List, [], ◌∷◌, pos, ◌++◌, ◌+ℤ◌, if◌then◌else◌}
use trandingnok.Float.Fixed.{Fixed, fixed_float, mul_fixed, whole_fixed, div_fixed}
use trandingnok.Float.{lit, nought, ◌≺◌}
use trandingnok.Examples.Sample.{dec, bar_at, chromosome, spawn}
use trandingnok.Quant.Calendar.{month_key}
use trandingnok.Quant.Data.{Bar}
use trandingnok.Strategy.Types.{Strategy}
use trandingnok.Backtest.Account.{
  apply_intents, apply_intent, apply_buy, clamp0, buy_qty, snap_to_step, add_lot,
}
use trandingnok.Backtest.Run.{
  Config, input_of, start_state, run_bars, run_bar, push_bar, enter_eval, inject, trade,
}
use trandingnok.Backtest.Run.Series.{called}
use trandingnok.Quant.Macro.{macro_buy}
use trandingnok.Saas.Store.{PortfolioRow}
use trandingnok.Saas.Load.{tick_input}
use trandingnok.Saas.Load.Isomorphic.{tick_input-called_input}

-- A strategy that buys on every bar.
abbrev buyer : Strategy Fixed
buyer i = record { intents = macro_buy (dec 50) ∷ []; runtime = i.runtime }

abbrev first_bars : List (Bar Fixed)
first_bars = bar_at 0 100 ∷ []

abbrev last_bar : Bar Fixed
last_bar = bar_at 1 110

abbrev config : Config Fixed
config = record {
  bars = first_bars ++ (last_bar ∷ []);
  eval_start_ms = pos 0;
  chromosome = chromosome;
  spawn_point = spawn;
  fees = record { lot_step = lit 1 2; lot_min = lit 1 2; taker_fee = lit 1 3 };
}

-- The account after the first purchase, when the strategy is called on the last bar.
abbrev twin : PortfolioRow Fixed
twin = record {
  instance_id = 7;
  usdt_balance = dec 951;
  dead_btc = lit 49 2;
  float_btc = dec 0;
  cold_sealed_btc = dec 0;
  total_equity = dec 0;
  last_processed_bar_time = none;
}

tick_input-called_input_example :
    let s = called config buyer first_bars last_bar in
    let live = tick_input (first_bars ++ (last_bar ∷ [])) twin s.runtime (chromosome, spawn) in
    let t = run_bars config buyer (first_bars ++ (last_bar ∷ [])) (start_state config) in
    (live ≡ input_of config s)
    × (t.runtime ≡ (buyer live).runtime)
    × (t.portfolio ≡ (
        if nought ≺ last_bar.close
        then apply_intents (buyer live).intents s.portfolio last_bar.close config.fees
        else s.portfolio))
unfolding run_bars run_bar push_bar enter_eval inject trade apply_intents month_key apply_intent
    apply_buy clamp0 buy_qty snap_to_step mul_fixed whole_fixed div_fixed add_lot ◌+ℤ◌
tick_input-called_input_example =
    tick_input-called_input config buyer first_bars last_bar twin
      (record { balance = refl; dead = refl; floating = refl; sealed = refl }) refl
