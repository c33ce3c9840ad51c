-- ===== src/Quant/Dietz.antt =====
-- The Modified Dietz return, which internal/quant/ghost_dca.go and
-- internal/adapters/backtest/adapter.go compute by the same loop.
use trandingnok.Base.{List, [], ◌∷◌, if◌then◌else◌, ℤ, pos, ◌-ℤ◌, ltb_ℤ, wrap64}
use trandingnok.Float.{Float64, ◌⊕◌, ◌⊖◌, ◌⊗◌, ◌⊘◌, ◌≺◌, lit, nought}

-- A payment, and the whole days from the start to it.
pub record CashFlow (R : Type 0) : Type 0 where
  pub day : ℤ
  pub amount : R

module _ {R : Type 0} ⦃f : Float64 R⦄ where
  weight_of : ℤ → ℤ → R
  unfolding ◌-ℤ◌ wrap64
  weight_of total_days day =
      if ltb_ℤ (pos 0) total_days
      then f.of_int (wrap64 (total_days -ℤ day)) ⊘ f.of_int total_days
      else lit 10 1

  -- The sum of the flows, and the sum weighted by the share of the time that each stays.
  unfoldable pub sum_flows : ℤ → R → R → List (CashFlow R) → R × R
  unfolding weight_of
  sum_flows total_days sum_f weighted_f [] = (sum_f, weighted_f)
  sum_flows total_days sum_f weighted_f (c ∷ flows) =
      sum_flows total_days (sum_f ⊕ c.amount) (weighted_f ⊕ c.amount ⊗ weight_of total_days c.day)
        flows

  -- The return from the start value, the final value and the two sums.
  unfoldable pub dietz_roi : R → R → R → R → R
  dietz_roi v_start final sum_f weighted_f =
      let denominator = v_start ⊕ weighted_f in
      if nought ≺ denominator then (final ⊖ v_start ⊖ sum_f) ⊘ denominator else nought
