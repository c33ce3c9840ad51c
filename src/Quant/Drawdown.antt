-- ===== src/Quant/Drawdown.antt =====
-- internal/quant/ghost_dca.go: the maximum drawdown of a curve.
pub mod Range
use trandingnok.Base.{◌&&◌, List, [], ◌∷◌, if◌then◌else◌}
use trandingnok.Float.{Float64, ◌⊖◌, ◌⊘◌, ◌≺◌, nought}

module _ {R : Type 0} ⦃f : Float64 R⦄ where
  -- The running peak, and the running maximum of the drawdowns from it.
  unfoldable pub raise_peak : R → R → R
  raise_peak peak v = if peak ≺ v then v else peak

  unfoldable pub deepen : R → R → R → R
  deepen peak max_dd v =
      let dd = (peak ⊖ v) ⊘ peak in if nought ≺ peak && max_dd ≺ dd then dd else max_dd

  -- The loop of `MaxDrawdown`, over the peak and the largest drawdown so far.
  unfoldable pub drawdown_from : R → R → List R → R
  drawdown_from peak max_dd [] = max_dd
  drawdown_from peak max_dd (v ∷ nav) =
      let peak' = raise_peak peak v in drawdown_from peak' (deepen peak' max_dd v) nav

  -- `MaxDrawdown`.
  unfoldable pub max_drawdown : List R → R
  max_drawdown [] = nought
  max_drawdown (v ∷ nav) = drawdown_from v nought (v ∷ nav)
