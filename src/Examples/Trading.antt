-- ===== src/Examples/Trading.antt =====
-- Runs of the strategy and of the backtest.
use trandingnok.Base.{
  ℕ, zero, suc, ◌≤◌, ◌<◌, ◌≡◌, refl, true, List, [], ◌∷◌, map, length, All, pos, ◌*ℤ◌, ◌+ℤ◌, ◌-ℤ◌,
  quot_ℤ,
}
use trandingnok.Float.Fixed.{
  Fixed, Fixed-IsOrdered, Fixed-IsRounded, finite-some, fixed_float, mul_fixed, div_fixed,
}
use trandingnok.Float.{lit}
use trandingnok.Examples.Sample.{dec, bar_at, chromosome, spawn, account, fresh, stopped}
use trandingnok.Quant.Data.{Bar, RuntimeState, Action, LotType}
use trandingnok.Quant.Market.{compute_market_state}
use trandingnok.Quant.Macro.{macro_buy}
use trandingnok.Quant.Lot.{try_release_dead_to_float}
use trandingnok.Strategy.Types.{StrategyInput}
use trandingnok.Strategy.SigmoidDca.{
  step, market_input, min_bars_required, run_release, release_intent,
}
use trandingnok.Strategy.SigmoidDca.Discipline.{Permitted, step-Permitted}
use trandingnok.Strategy.SigmoidDca.Latch.{IsNoSale, run_steps, run_steps-IsNoSale}
use trandingnok.Backtest.Account.{Fees, apply_intent}
use trandingnok.Backtest.Account.Settled.{Effect, apply_intent-Effect}
use trandingnok.Backtest.Account.Released.{apply_intent-run_release}
use trandingnok.Backtest.Run.{Config, start_state, run_bars}
use trandingnok.Backtest.Run.Series.{Sound, run_bars-start_Sound}

abbrev prices : ℕ → List (Bar Fixed)
prices zero = []
prices (suc n) = bar_at n 120 ∷ prices n

abbrev tick : RuntimeState Fixed → StrategyInput Fixed
tick rt = record {
  closes = map (λ b. b.close) (prices 30);
  highs = map (λ b. b.high) (prices 30);
  lows = map (λ b. b.low) (prices 30);
  timestamps = map (λ b. b.open_time) (prices 30);
  portfolio = account;
  runtime = rt;
  params = chromosome;
  spawn_point = spawn;
}

step-Permitted_example :
    let out = step (tick fresh) in
    let ms = (compute_market_state (market_input (tick fresh))).0 in
    All (Permitted ms.state) out.intents
    × (length out.intents ≤ 2)
    × (length (tick fresh).closes < min_bars_required → (out.intents ≡ []) × (out.runtime ≡ fresh))
    × (ms.is_quiet ≡ true → out.intents ≡ [])
step-Permitted_example = step-Permitted (tick fresh)

run_steps-IsNoSale_example : All IsNoSale (run_steps (tick fresh ∷ tick fresh ∷ []) stopped)
run_steps-IsNoSale_example = run_steps-IsNoSale (tick fresh ∷ tick fresh ∷ []) stopped refl

abbrev fees : Fees Fixed
fees = record { lot_step = lit 1 2; lot_min = lit 1 2; taker_fee = lit 1 3 }

apply_intent-Effect_example :
    Effect Action.buy LotType.dead_stack account
      (apply_intent (macro_buy (dec 50)) account (dec 100) fees)
apply_intent-Effect_example = apply_intent-Effect (macro_buy (dec 50)) account (dec 100) fees

apply_intent-run_release_example :
    let res = try_release_dead_to_float account spawn (dec 500) in
    apply_intent (release_intent (dec 1)) account (dec 500) fees
    ≡ record account { dead_stack = res.dead_stack; float_stack = res.float_stack }
unfolding run_release try_release_dead_to_float mul_fixed div_fixed ◌*ℤ◌ ◌+ℤ◌ ◌-ℤ◌ quot_ℤ
apply_intent-run_release_example =
    apply_intent-run_release Fixed-IsOrdered Fixed-IsRounded account spawn (dec 500) fees
      (release_intent (dec 1)) (finite-some _) refl refl refl refl

abbrev config : ℕ → Config Fixed
config start = record {
  bars = bar_at 0 100 ∷ bar_at 1 110 ∷ bar_at 2 120 ∷ [];
  eval_start_ms = pos start;
  chromosome = chromosome;
  spawn_point = spawn;
  fees = fees;
}

run_bars-start_Sound_example :
    Sound (config 0) step (run_bars (config 0) step (config 0).bars (start_state (config 0)))
run_bars-start_Sound_example = run_bars-start_Sound (config 0) step (config 0).bars
