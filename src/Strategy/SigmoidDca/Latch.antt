-- ===== src/Strategy/SigmoidDca/Latch.antt =====
-- internal/strategies/sigmoid_dca/step.go: the stop-loss latch over a run of steps.
use trandingnok.Base.{◌≡◌, ◌∙◌, ◌≢◌, true, List, [], ◌∷◌, ◌++◌, arith, All, All-append, All-mono}
use trandingnok.Float.{Float64}
use trandingnok.Quant.Data.{RuntimeState, MonthStr, TradeIntent, Action}
use trandingnok.Quant.Market.{State, quiet, bear, bull, compute_market_state}
use trandingnok.Quant.Market.Regime.{compute_market_state-history}
use trandingnok.Quant.Micro.{compute_micro_decision}
use trandingnok.Strategy.Types.{StrategyInput}
use trandingnok.Strategy.SigmoidDca.{
  to_list, run_macro, run_micro, run_release, run_engine, last_price, last_month_str, market_input,
  step,
}
use trandingnok.Strategy.SigmoidDca.Discipline.{macro-IsMacroBuy, IsMacroBuy}

module _ {R : Type 0} ⦃f : Float64 R⦄ where
  abbrev pub IsNoSale : TradeIntent R → Type 0
  IsNoSale t = t.action ≢ Action.sell

  IsNoSale-of_buy : (t : TradeIntent R) → IsMacroBuy t → IsNoSale t
  IsNoSale-of_buy t h = ground arith

  -- The engines leave a latched state latched, and sell nothing on it.
  engine-latched :
      (s : State) (price : R) (m : MonthStr) (i : StrategyInput R) (rt : RuntimeState R)
      → rt.stop_loss_hit ≡ true
      → ((run_engine s price m i rt).1.stop_loss_hit ≡ true)
        × All IsNoSale (run_engine s price m i rt).0
  unfolding run_engine run_macro run_micro compute_micro_decision
  engine-latched quiet price m i rt h = (h, tt)
  engine-latched bear price m i rt h =
      let (buys, same) = macro-IsMacroBuy _ in (same ∙ h, All-mono (to_list _) IsNoSale-of_buy buys)
  engine-latched bull price m i rt h = ground arith

  release-IsNoSale :
      (i : StrategyInput R) (price : R)
      → All IsNoSale (to_list (run_release i.portfolio i.spawn_point price))
  unfolding run_release
  release-IsNoSale i price = ground arith

  pub step-latched :
      (i : StrategyInput R)
      → i.runtime.stop_loss_hit ≡ true
      → ((step i).runtime.stop_loss_hit ≡ true) × All IsNoSale (step i).intents
  unfolding step
  step-latched i h =
      let (ms, rt) = compute_market_state (market_input i) in
      let price = last_price i in
      let keep = (compute_market_state-history (market_input i)).5 in
      let (hit, none_) = engine-latched ms.state price (last_month_str i) i rt (keep ∙ h) in
      let all =
        All-append IsNoSale (run_engine ms.state price (last_month_str i) i rt).0
          (to_list (run_release i.portfolio i.spawn_point price)) none_
          (release-IsNoSale i price) in
      ground arith

  -- The intents of a run of steps, each on the runtime state that the last one left.
  pub run_steps : List (StrategyInput R) → RuntimeState R → List (TradeIntent R)
  run_steps [] rt = []
  run_steps (i ∷ is) rt =
      let out = step (record i { runtime = rt }) in out.intents ++ run_steps is out.runtime

  -- Once the stop-loss is hit no later step of a run ever sells, whatever the market does.
  pub run_steps-IsNoSale :
      (is : List (StrategyInput R)) (rt : RuntimeState R)
      → rt.stop_loss_hit ≡ true
      → All IsNoSale (run_steps is rt)
  unfolding run_steps
  run_steps-IsNoSale [] rt h = tt
  run_steps-IsNoSale (i ∷ is) rt h =
      let (hit, none_) = step-latched (record i { runtime = rt }) h in
      All-append IsNoSale (step (record i { runtime = rt })).intents _ none_
        (run_steps-IsNoSale is (step (record i { runtime = rt })).runtime hit)
