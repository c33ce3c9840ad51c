-- ===== src/Quant/Micro.antt =====
-- internal/quant/micro_engine.go: the stop-loss and the sigmoid sale.
pub mod StopLoss
pub mod Sale
use trandingnok.Base.{true, ◌||◌, Option, none, some, if◌then◌else◌}
use trandingnok.Float.{Float64, ◌⊕◌, ◌⊖◌, ◌⊗◌, ◌⊘◌, ◌≺◌, ◌≼◌, lit, nought}
use trandingnok.Quant.Data.{PortfolioState, RuntimeState, TradeIntent, Action, Engine, LotType}
use trandingnok.Quant.Genome.{Chromosome}
use trandingnok.Quant.Lot.{roi_at}

pub record MicroInput (R : Type 0) : Type 0 where
  pub price : R
  pub ema200 : R
  pub portfolio : PortfolioState R
  pub params : Chromosome R
  pub rt : RuntimeState R

pub record MicroOutput (R : Type 0) : Type 0 where
  pub intent : Option (TradeIntent R)
  pub rt : RuntimeState R

module _ {R : Type 0} ⦃f : Float64 R⦄ where
  abbrev pub r_tick_max_sell : R
  r_tick_max_sell = lit 5 2

  abbrev pub micro_sell : R → TradeIntent R
  micro_sell qty = record {
    action = Action.sell;
    engine = Engine.micro;
    lot_type = LotType.floating;
    amount_usdt = nought;
    qty_asset = qty;
  }

  -- The return that the stop-loss looks at: 0 where there is no initial value.
  abbrev pub stop_loss_roi : MicroInput R → R
  stop_loss_roi i = if nought ≺ i.portfolio.nav_initial then roi_at i.portfolio i.price else nought

  -- s = 1 / (1 + e^{-x}) at x = k · ln(P / EMA200).
  unfoldable pub sigmoid : MicroInput R → R
  sigmoid i =
      let x = i.params.sigmoid_sensitivity ⊗ f.log (i.price ⊘ i.ema200) in
      lit 10 1 ⊘ (lit 10 1 ⊕ f.exp (f.neg x))

  -- The share of the float stack that a sigmoid value sells.
  unfoldable pub sell_qty : R → R → R
  sell_qty float_stack s = float_stack ⊗ ((s ⊖ lit 5 1) ⊗ lit 20 1) ⊗ r_tick_max_sell

  sigmoid_sale : MicroInput R → Option (TradeIntent R)
  sigmoid_sale i =
      if i.portfolio.float_stack ≼ nought || i.ema200 ≼ nought
      then none
      else (let s = sigmoid i in
          if s ≼ lit 5 1
          then none
          else (let qty = sell_qty i.portfolio.float_stack s in
              if qty ≼ nought then none else some (micro_sell qty)))

  -- `ComputeMicroDecision`.
  unfoldable pub compute_micro_decision : MicroInput R → MicroOutput R
  unfolding sigmoid_sale
  compute_micro_decision i =
      let rt = i.rt in
      if rt.stop_loss_hit
      then record { intent = none; rt = rt }
      else if stop_loss_roi i ≺ i.params.stop_loss_threshold
      then record {
        intent =
            if nought ≺ i.portfolio.float_stack
            then some (micro_sell i.portfolio.float_stack)
            else none;
        rt = record rt { stop_loss_hit = true };
      }
      else record { intent = sigmoid_sale i; rt = rt }
