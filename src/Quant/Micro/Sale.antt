-- ===== src/Quant/Micro/Sale.antt =====
-- internal/quant/micro_engine.go: the cap on what one tick may sell.
use trandingnok.Base.{ℕ, ◌≤◌, ◌≡◌, ◌⊎◌, inl, inr, true, false, none, some, arith}
use trandingnok.Quant.Data.{Action, Engine, LotType}
use trandingnok.Float.{IsOrdered, IsRounded, Float64, ◌⊖◌, ◌⊗◌, ◌⊘◌, ◌≺◌, ◌≼◌, lit, nought}
use mathlib.Core.Path.{subst}
use trandingnok.Quant.Micro.{
  MicroInput, MicroOutput, micro_sell, r_tick_max_sell, stop_loss_roi, sigmoid, sell_qty,
  compute_micro_decision,
}
use trandingnok.Float.Order.{lt_of_lt_le, le_of_not_le}
use trandingnok.Quant.Micro.StopLoss.{compute_micro_decision-order}

module _ {R : Type 0} ⦃f : Float64 R⦄ (ord : IsOrdered R) (r : IsRounded R) where
  fin : (n d : ℕ) → n ≤ 100 → r.finite (lit n d) ≡ true
  fin n d h = r.lit_finite n d (omega arith)

  -- From a signal between one half and one, a share of the float stack between 0 and 1.
  share-bounds :
      (s : R)
      → (lit 5 1 ≼ s) ≡ true
      → (s ≼ lit 1 0) ≡ true
      → let share = (s ⊖ lit 5 1) ⊗ lit 20 1 in
        ((nought ≼ share) ≡ true) × ((share ≼ lit 1 0) ≡ true)
  share-bounds s h k =
      let half = fin 5 1 (omega arith) in
      let two = fin 20 1 (omega arith) in
      let zero_ = fin 0 0 (omega arith) in
      let over = r.sub_nonneg s (lit 5 1) half h in
      let one_le : (s ≼ lit 10 1) ≡ true = rw r.one_exact k in
      let under = r.sub_mono s (lit 10 1) (lit 5 1) half one_le in
      let top = r.sub-le (lit 10 1) (lit 5 1) (fin 10 1 (omega arith)) (r.lit_nonneg 5 1) in
      let fs =
        r.finite_of_between nought (s ⊖ lit 5 1) (lit 10 1) zero_ (fin 10 1 (omega arith)) over
          (ord.le_trans _ _ _ under top) in
      let most =
        r.finite_of_between nought (lit 10 1 ⊖ lit 5 1) (lit 10 1) zero_ (fin 10 1 (omega arith))
          (ord.le_trans _ _ _ over under) top in
      (
        r.mul_nonneg _ _ fs two over (r.lit_nonneg 20 1),
        subst (λ t. (((s ⊖ lit 5 1) ⊗ lit 20 1) ≼ t) ≡ true) r.half_exact
            (r.mul_mono _ _ _ two fs most over under (r.lit_nonneg 20 1)),
      )

  -- A share of the stack, and then 5% of that.
  sell_qty-bounds :
      (stack s : R)
      → r.finite stack ≡ true
      → (nought ≼ stack) ≡ true
      → (lit 5 1 ≼ s) ≡ true
      → (s ≼ lit 1 0) ≡ true
      → ((nought ≼ sell_qty stack s) ≡ true)
        × ((sell_qty stack s ≼ (stack ⊗ r_tick_max_sell)) ≡ true)
  unfolding sell_qty
  sell_qty-bounds stack s fs p h k =
      let (q, one) = share-bounds s h k in
      let zero_ = fin 0 0 (omega arith) in
      let cap_fin = fin 5 2 (omega arith) in
      let fq = r.finite_of_between nought _ (lit 1 0) zero_ (fin 1 0 (omega arith)) q one in
      let pq = r.mul_nonneg stack _ fs fq p q in
      let lq = r.mul-le_left stack _ fs p q one in
      let fpq = r.finite_of_between nought _ stack zero_ fs pq lq in
      (
        r.mul_nonneg _ _ fpq cap_fin pq (r.lit_nonneg 5 2),
        r.mul_mono _ _ _ cap_fin fpq fs pq lq (r.lit_nonneg 5 2),
      )

  -- The sigmoid is at most one where its exponential is a number.
  sigmoid-le_one :
      (i : MicroInput R)
      → let x = i.params.sigmoid_sensitivity ⊗ f.log (i.price ⊘ i.ema200) in
        (f.neg x ≼ f.neg x) ≡ true → (sigmoid i ≼ lit 1 0) ≡ true
  unfolding sigmoid
  sigmoid-le_one i num =
      let e = r.exp_nonneg _ num in
      let one = fin 10 1 (omega arith) in
      let le = r.le-add (lit 10 1) _ one (r.lit_nonneg 10 1) e in
      r.div-le_one (lit 10 1) _ one (r.lit_nonneg 10 1) le (lt_of_lt_le ord _ _ _ r.one_pos le)

  -- While the stop-loss is not hit and not met, one tick sells between nothing and 5% of a finite
  -- float stack that is not negative, provided that the signal's exponent is no NaN.
  pub compute_micro_decision-cap :
      (i : MicroInput R) (qty : R)
      → let x = i.params.sigmoid_sensitivity ⊗ f.log (i.price ⊘ i.ema200) in
        (f.neg x ≼ f.neg x) ≡ true
        → r.finite i.portfolio.float_stack ≡ true
        → i.rt.stop_loss_hit ≡ false
        → (stop_loss_roi i ≺ i.params.stop_loss_threshold) ≡ false
        → (compute_micro_decision i).intent ≡ some (micro_sell qty)
        → ((nought ≼ qty) ≡ true) × ((qty ≼ (i.portfolio.float_stack ⊗ r_tick_max_sell)) ≡ true)
  compute_micro_decision-cap i qty num fin_ off above sold =
      let (_, _, _, _, quiet) = compute_micro_decision-order i in
      elim ((quiet off above).1) [
        | inl silent ↦ cc
        | inr (e, sig, pos_, _, _) ↦
            let one = sigmoid-le_one i num in
            let ns = (ord.refl_of_le _ _ one).0 in
            let half = r.le_refl_of_finite _ (fin 5 1 (omega arith)) in
            let zero_ = ord.nought_refl in
            let up = le_of_not_le ord (sigmoid i) (lit 5 1) ns half sig in
            let nf = r.le_refl_of_finite _ fin_ in
            let stack = le_of_not_le ord i.portfolio.float_stack nought nf zero_ pos_ in
            let same : sell_qty i.portfolio.float_stack (sigmoid i) ≡ qty = ground arith in
            rw (← same) (sell_qty-bounds i.portfolio.float_stack (sigmoid i) fin_ stack up one)
      ]

  -- What one tick may do: nothing once the stop-loss is latched; where it is met, latch it and sell
  -- the whole float stack; and else at most 5% of it.
  pub data Bounded (i : MicroInput R) (o : MicroOutput R) : Type 0 where
    silent : i.rt.stop_loss_hit ≡ true → o.intent ≡ none → o.rt ≡ i.rt → Bounded i o
    liquidated :
        i.rt.stop_loss_hit ≡ false
        → (stop_loss_roi i ≺ i.params.stop_loss_threshold) ≡ true
        → o.rt ≡ record (i.rt) { stop_loss_hit = true }
        → (o.intent ≡ none)
          ⊎ ((nought ≺ i.portfolio.float_stack) ≡ true)
            × (o.intent
                ≡ some (record {
                  action = Action.sell;
                  engine = Engine.micro;
                  lot_type = LotType.floating;
                  amount_usdt = nought;
                  qty_asset = i.portfolio.float_stack;
                }))
        → Bounded i o
    waits :
        i.rt.stop_loss_hit ≡ false
        → (stop_loss_roi i ≺ i.params.stop_loss_threshold) ≡ false
        → o.rt ≡ i.rt
        → o.intent ≡ none
        → Bounded i o
    trims :
        (qty : R)
        → i.rt.stop_loss_hit ≡ false
        → (stop_loss_roi i ≺ i.params.stop_loss_threshold) ≡ false
        → o.rt ≡ i.rt
        → o.intent
          ≡ some (record {
            action = Action.sell;
            engine = Engine.micro;
            lot_type = LotType.floating;
            amount_usdt = nought;
            qty_asset = qty;
          })
        → (qty ≼ nought) ≡ false
        → (qty ≼ (i.portfolio.float_stack ⊗ lit 5 2)) ≡ true
        → Bounded i o
