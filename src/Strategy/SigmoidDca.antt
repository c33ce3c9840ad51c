-- ===== src/Strategy/SigmoidDca.antt =====
-- internal/strategies/sigmoid_dca: step.go, macro.go, micro.go and dead_release.go.
pub mod Discipline
pub mod Latch
pub mod Params
use trandingnok.Base.{
  ℕ, ◌-◌, Option, none, some, List, [], ◌∷◌, ◌++◌, ltb, if◌then◌else◌, length, get_or, pos,
}
use trandingnok.Float.{Float64, ◌≼◌, nought}
use trandingnok.Quant.Data.{
  PortfolioState, RuntimeState, MonthStr, TradeIntent, Action, Engine, LotType,
}
use trandingnok.Quant.Calendar.{month_key}
use trandingnok.Quant.Genome.{Chromosome, SpawnPoint}
use trandingnok.Quant.Lot.{try_release_dead_to_float}
use trandingnok.Quant.Market.{State, quiet, bear, bull, MarketStateInput, compute_market_state}
use trandingnok.Quant.Macro.{MacroOutput, compute_macro_decision}
use trandingnok.Quant.Micro.{MicroOutput, compute_micro_decision}
use trandingnok.Strategy.Types.{StrategyInput, Strategy}

abbrev pub min_bars_required : ℕ
min_bars_required = 24

-- The optional intent as the elements that it appends.
abbrev pub to_list {ℓ} : {A : Type ℓ} → Option A → List A
to_list none = []
to_list (some a) = a ∷ []

module _ {R : Type 0} ⦃f : Float64 R⦄ where
  -- `runMacro`.
  unfoldable pub run_macro :
      R → PortfolioState R → Chromosome R → RuntimeState R → MonthStr → MacroOutput R
  run_macro price p c rt month_str =
      compute_macro_decision
        (record { price = price; portfolio = p; params = c; rt = rt; month_str = month_str })

  -- `runMicro`.
  unfoldable pub run_micro :
      R → R → PortfolioState R → Chromosome R → RuntimeState R → MicroOutput R
  run_micro price ema200 p c rt =
      compute_micro_decision
        (record { price = price; ema200 = ema200; portfolio = p; params = c; rt = rt })

  abbrev pub release_intent : R → TradeIntent R
  release_intent qty = record {
    action = Action.release;
    engine = Engine.macro;
    lot_type = LotType.dead_stack;
    amount_usdt = nought;
    qty_asset = qty;
  }

  -- `runRelease`.
  unfoldable pub run_release : PortfolioState R → SpawnPoint R → R → Option (TradeIntent R)
  run_release p spawn price =
      let res = try_release_dead_to_float p spawn price in
      if res.released ≼ nought then none else some (release_intent res.released)

  -- The engine that the market state lets run: its intent, if any, and its runtime state.
  unfoldable pub run_engine :
      State
      → R
      → MonthStr
      → StrategyInput R
      → RuntimeState R
      → List (TradeIntent R) × RuntimeState R
  run_engine bear price month_str i rt =
      let mo = run_macro price i.portfolio i.params rt month_str in (to_list mo.intent, mo.rt)
  run_engine bull price month_str i rt =
      let mo = run_micro price rt.ema200 i.portfolio i.params rt in (to_list mo.intent, mo.rt)
  run_engine quiet price month_str i rt = ([], rt)

  abbrev pub last_price : StrategyInput R → R
  last_price i = get_or i.closes (length i.closes - 1) nought

  abbrev pub last_month_str : StrategyInput R → MonthStr
  last_month_str i =
      if ltb 0 (length i.timestamps)
      then month_key (get_or i.timestamps (length i.timestamps - 1) (pos 0))
      else MonthStr.unset

  -- The market input of a step.
  abbrev pub market_input : StrategyInput R → MarketStateInput R
  market_input i = record {
    closes = i.closes;
    highs = i.highs;
    lows = i.lows;
    price = last_price i;
    rt = i.runtime;
  }

  -- `(*SigmoidDCA).Step`.
  unfoldable pub step : Strategy R
  step i =
      if ltb (length i.closes) min_bars_required
      then record { intents = []; runtime = i.runtime }
      else (let (ms, rt) = compute_market_state (market_input i) in
          if ms.is_quiet
          then record { intents = []; runtime = rt }
          else (let (intents, rt') = run_engine ms.state (last_price i) (last_month_str i) i rt in
              record {
                intents = intents ++ to_list (run_release i.portfolio i.spawn_point (last_price i));
                runtime = rt';
              }))
