-- ===== src/Backtest/Account.antt =====
-- internal/adapters/backtest/adapter.go: one intent against the simulated account.
pub mod Settled
pub mod Released
use trandingnok.Base.{Bool, ◌&&◌, ◌||◌, List, [], ◌∷◌, if◌then◌else◌}
use trandingnok.Float.{Float64, ◌⊕◌, ◌⊖◌, ◌⊗◌, ◌⊘◌, ◌≺◌, ◌≼◌, lit, nought}
use trandingnok.Quant.Data.{PortfolioState, TradeIntent, Action, LotType}

-- The lot and fee settings of a run.
pub record Fees (R : Type 0) : Type 0 where
  pub lot_step : R
  pub lot_min : R
  pub taker_fee : R

module _ {R : Type 0} ⦃f : Float64 R⦄ where
  -- `clamp0`.
  unfoldable pub clamp0 : R → R
  clamp0 v = if v ≺ nought then nought else v

  -- `snapToStep`.
  unfoldable pub snap_to_step : R → R → R
  snap_to_step qty step = if step ≼ nought then qty else f.of_int (f.to_int (qty ⊘ step)) ⊗ step

  abbrev pub respend : PortfolioState R → PortfolioState R
  respend p = record p { spendable_usdt = clamp0 (p.total_usdt ⊖ p.reserve_floor) }

  -- The inner switch of a purchase, on the lot type.
  unfoldable pub add_lot : LotType → R → PortfolioState R → PortfolioState R
  add_lot LotType.dead_stack qty p = record p { dead_stack = p.dead_stack ⊕ qty }
  add_lot LotType.floating qty p = record p { float_stack = p.float_stack ⊕ qty }
  add_lot (LotType.other s) qty p = p

  -- The quantity that a purchase receives.
  unfoldable pub buy_qty : R → R → Fees R → R
  buy_qty spend price fees = snap_to_step (spend ⊘ price ⊗ (lit 1 0 ⊖ fees.taker_fee)) fees.lot_step

  abbrev pub below_min : R → Fees R → Bool
  below_min qty fees = nought ≺ fees.lot_min && qty ≺ fees.lot_min

  unfoldable pub apply_buy : TradeIntent R → PortfolioState R → R → Fees R → PortfolioState R
  apply_buy intent p price fees =
      let spend = intent.amount_usdt in
      if spend ≼ nought || p.spendable_usdt ≺ spend
      then p
      else (let qty = buy_qty spend price fees in
          if below_min qty fees
          then p
          else add_lot intent.lot_type qty
              (respend (record p { total_usdt = p.total_usdt ⊖ qty ⊗ price })))

  unfoldable pub apply_sell : TradeIntent R → PortfolioState R → R → Fees R → PortfolioState R
  apply_sell intent p price fees =
      let qty = snap_to_step intent.qty_asset fees.lot_step in
      if below_min qty fees || p.float_stack ≺ qty
      then p
      else respend (record p {
        float_stack = p.float_stack ⊖ qty;
        total_usdt = p.total_usdt ⊕ qty ⊗ price ⊗ (lit 1 0 ⊖ fees.taker_fee);
      })

  unfoldable pub apply_release : TradeIntent R → PortfolioState R → PortfolioState R
  apply_release intent p =
      let qty = intent.qty_asset in
      if qty ≼ nought || p.dead_stack ≺ qty
      then p
      else record p { dead_stack = p.dead_stack ⊖ qty; float_stack = p.float_stack ⊕ qty }

  apply_action : Action → TradeIntent R → PortfolioState R → R → Fees R → PortfolioState R
  apply_action Action.buy = apply_buy
  apply_action Action.sell = apply_sell
  apply_action Action.release = λ intent p price fees. apply_release intent p
  apply_action (Action.other s) = λ intent p price fees. p

  -- `applyIntent`.
  unfoldable pub apply_intent : TradeIntent R → PortfolioState R → R → Fees R → PortfolioState R
  unfolding apply_action
  apply_intent intent = apply_action intent.action intent

  -- The intents of one bar, in order.
  unfoldable pub apply_intents :
      List (TradeIntent R) → PortfolioState R → R → Fees R → PortfolioState R
  apply_intents [] p price fees = p
  apply_intents (i ∷ is) p price fees = apply_intents is (apply_intent i p price fees) price fees
