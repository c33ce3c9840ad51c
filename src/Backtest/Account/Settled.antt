-- ===== src/Backtest/Account/Settled.antt =====
-- internal/adapters/backtest/adapter.go: what no intent changes, and what every intent keeps.
use trandingnok.Base.{◌≡◌, refl, ◌∙◌, List, [], ◌∷◌, arith, String}
use trandingnok.Float.{Float64, ◌⊖◌}
use trandingnok.Quant.Data.{PortfolioState, TradeIntent, Action, LotType}
use trandingnok.Backtest.Account.{
  Fees, clamp0, add_lot, apply_buy, apply_sell, apply_release, apply_action, apply_intent,
  apply_intents,
}

module _ {R : Type 0} ⦃f : Float64 R⦄ where
  -- The spendable amount is what the balance leaves above the reserve.
  abbrev pub IsSettled : PortfolioState R → Type 0
  IsSettled p = p.spendable_usdt ≡ clamp0 (p.total_usdt ⊖ p.reserve_floor)

  -- The parts of an account that no trade touches.
  pub record Frame (p q : PortfolioState R) : Type 0 where
    pub reserve : q.reserve_floor ≡ p.reserve_floor
    pub sealed : q.cold_sealed_stack ≡ p.cold_sealed_stack
    pub initial : q.nav_initial ≡ p.nav_initial

  -- What one intent does: purchases never touch the other lot, sales never the dead stack, releases
  -- never the balance.
  pub record Effect (a : Action) (l : LotType) (p q : PortfolioState R) : Type 0 where
    pub frame : Frame p q
    pub settled : IsSettled p → IsSettled q
    pub dead : a ≡ Action.sell → q.dead_stack ≡ p.dead_stack
    pub floating : a ≡ Action.buy → l ≡ LotType.dead_stack → q.float_stack ≡ p.float_stack
    pub balance : a ≡ Action.release → q.total_usdt ≡ p.total_usdt
    pub nothing : (s : String) → a ≡ Action.other s → q ≡ p

  buy-Effect :
      (t : TradeIntent R) (p : PortfolioState R) (price : R) (fees : Fees R) (l : LotType)
      → t.lot_type ≡ l
      → Effect Action.buy l p (apply_buy t p price fees)
  unfolding apply_buy add_lot
  buy-Effect t p price fees LotType.dead_stack e = ground arith
  buy-Effect t p price fees LotType.floating e = ground arith
  buy-Effect t p price fees (LotType.other s) e = ground arith

  sell-Effect :
      (t : TradeIntent R) (p : PortfolioState R) (price : R) (fees : Fees R) (l : LotType)
      → Effect Action.sell l p (apply_sell t p price fees)
  unfolding apply_sell
  sell-Effect t p price fees l = ground arith

  release-Effect :
      (t : TradeIntent R) (p : PortfolioState R) (l : LotType)
      → Effect Action.release l p (apply_release t p)
  unfolding apply_release
  release-Effect t p l = ground arith

  action-Effect :
      (a : Action) (t : TradeIntent R) (p : PortfolioState R) (price : R) (fees : Fees R)
      → Effect a t.lot_type p (apply_action a t p price fees)
  unfolding apply_action
  action-Effect Action.buy t p price fees = buy-Effect t p price fees t.lot_type refl
  action-Effect Action.sell t p price fees = sell-Effect t p price fees t.lot_type
  action-Effect Action.release t p price fees = release-Effect t p t.lot_type
  action-Effect (Action.other s) t p price fees = ground arith

  -- One intent, whatever its strings: the reserve, the sealed stack and the initial value stay; the
  -- spendable amount follows the balance; a sale leaves the dead stack, a purchase for the dead
  -- stack the float stack, a release the balance, and an unknown action everything as it was.
  pub apply_intent-Effect :
      (t : TradeIntent R) (p : PortfolioState R) (price : R) (fees : Fees R)
      → Effect t.action t.lot_type p (apply_intent t p price fees)
  unfolding apply_intent
  apply_intent-Effect t p price fees = action-Effect t.action t p price fees

  -- Any list of intents keeps the reserve, the sealed stack and the initial value, and where the
  -- spendable amount followed the balance before, it does so after.
  pub apply_intents-Frame :
      (ts : List (TradeIntent R)) (p : PortfolioState R) (price : R) (fees : Fees R)
      → Frame p (apply_intents ts p price fees)
        × (IsSettled p → IsSettled (apply_intents ts p price fees))
  unfolding apply_intents
  apply_intents-Frame [] p price fees = ground arith
  apply_intents-Frame (t ∷ ts) p price fees =
      let e = apply_intent-Effect t p price fees in
      let (rest, keep) = apply_intents-Frame ts (apply_intent t p price fees) price fees in
      (
        record {
          reserve = rest.reserve ∙ e.frame.reserve;
          sealed = rest.sealed ∙ e.frame.sealed;
          initial = rest.initial ∙ e.frame.initial;
        },
        λ h. keep (e.settled h),
      )
