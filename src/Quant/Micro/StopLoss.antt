-- ===== src/Quant/Micro/StopLoss.antt =====
-- internal/quant/micro_engine.go: the stop-loss latch, and how much one tick may sell.
use trandingnok.Base.{◌≡◌, ◌⊎◌, true, false, none, some, arith}
use trandingnok.Float.{Float64, ◌≺◌, ◌≼◌, lit, nought}
use trandingnok.Quant.Micro.{
  MicroInput, micro_sell, stop_loss_roi, sigmoid, sell_qty, compute_micro_decision,
}

module _ {R : Type 0} ⦃f : Float64 R⦄ where
  -- The stop-loss comes before the signal. A tick that meets it latches it and sells the whole
  -- float stack, if there is any; after that the engine is silent; and a tick that does not meet it
  -- sells only on a signal above one half, with a float stack and an average that are positive.
  pub compute_micro_decision-order :
      (i : MicroInput R)
      → let o = compute_micro_decision i in
        let hit = stop_loss_roi i ≺ i.params.stop_loss_threshold in
        let has_float = nought ≺ i.portfolio.float_stack in
        (i.rt.stop_loss_hit ≡ true → (o.intent ≡ none) × (o.rt ≡ i.rt))
        × (i.rt.stop_loss_hit ≡ false → hit ≡ true → o.rt ≡ record (i.rt) { stop_loss_hit = true })
        × (i.rt.stop_loss_hit ≡ false
            → hit ≡ true
            → has_float ≡ true
            → o.intent ≡ some (micro_sell i.portfolio.float_stack))
        × (i.rt.stop_loss_hit ≡ false → hit ≡ true → has_float ≡ false → o.intent ≡ none)
        × (i.rt.stop_loss_hit ≡ false
            → hit ≡ false
            → (o.rt ≡ i.rt)
              × ((o.intent ≡ none)
                  ⊎ (o.intent ≡ some (micro_sell (sell_qty i.portfolio.float_stack (sigmoid i))))
                    × ((sigmoid i ≼ lit 5 1) ≡ false)
                    × ((i.portfolio.float_stack ≼ nought) ≡ false)
                    × ((i.ema200 ≼ nought) ≡ false)
                    × ((sell_qty i.portfolio.float_stack (sigmoid i) ≼ nought) ≡ false)))
  unfolding compute_micro_decision
  compute_micro_decision-order i = ground arith
