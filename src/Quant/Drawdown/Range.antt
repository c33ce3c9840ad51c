-- ===== src/Quant/Drawdown/Range.antt =====
-- internal/quant/ghost_dca.go: MaxDrawdown is a share of the peak.
use trandingnok.Base.{◌≡◌, inl, inr, true, List, [], ◌∷◌, arith, Bool-cases, All}
use trandingnok.Float.{IsOrdered, IsRounded, Float64, ◌⊖◌, ◌⊘◌, ◌≺◌, ◌≼◌, lit, nought}
use trandingnok.Quant.Drawdown.{raise_peak, deepen, drawdown_from, max_drawdown}

module _ {R : Type 0} ⦃f : Float64 R⦄ (ord : IsOrdered R) (r : IsRounded R) where
  -- A value of a curve: finite and not negative.
  abbrev pub IsValue : R → Type 0
  IsValue v = (r.finite v ≡ true) × ((nought ≼ v) ≡ true)

  abbrev IsShare : R → Type 0
  IsShare d = ((nought ≼ d) ≡ true) × ((d ≼ lit 1 0) ≡ true)

  -- The drawdown from a peak to a value below it.
  fall-IsShare :
      (peak v : R)
      → IsValue peak
      → IsValue v
      → (v ≼ peak) ≡ true
      → (nought ≺ peak) ≡ true
      → IsShare ((peak ⊖ v) ⊘ peak)
  fall-IsShare peak v (fp, p) (fv, q) le pos_ =
      let down = r.sub_nonneg peak v fv le in
      let less = r.sub-le peak v fp q in
      (
        r.div_nonneg (peak ⊖ v) peak fp down pos_,
        r.div-le_one (peak ⊖ v) peak
            (r.finite_of_between nought _ peak (r.lit_finite 0 0 (omega arith)) fp down less) down
            less pos_,
      )

  raise_peak_lem :
      (peak v : R)
      → IsValue peak
      → IsValue v
      → IsValue (raise_peak peak v) × ((v ≼ raise_peak peak v) ≡ true)
  unfolding raise_peak
  raise_peak_lem peak v p q =
      let np = r.le_refl_of_finite peak p.0 in
      let nv = r.le_refl_of_finite v q.0 in ground (arith, ord.lt-eq-not-le peak v np nv)

  deepen-IsShare :
      (peak max_dd v : R)
      → IsValue peak
      → IsValue v
      → (v ≼ peak) ≡ true
      → IsShare max_dd
      → IsShare (deepen peak max_dd v)
  unfolding deepen
  deepen-IsShare peak max_dd v p q le d = elim (Bool-cases (nought ≺ peak)) [
    | inl high ↦ let share = fall-IsShare peak v p q le high in ground arith
    | inr low ↦ rw low d
  ]

  drawdown_from-IsShare :
      (peak max_dd : R) (nav : List R)
      → IsValue peak
      → IsShare max_dd
      → All IsValue nav
      → IsShare (drawdown_from peak max_dd nav)
  unfolding drawdown_from
  drawdown_from-IsShare peak max_dd [] p d vs = d
  drawdown_from-IsShare peak max_dd (v ∷ nav) p d (q, vs) =
      let (p', le) = raise_peak_lem peak v p q in
      drawdown_from-IsShare (raise_peak peak v) _ nav p'
        (deepen-IsShare (raise_peak peak v) max_dd v p' q le d) vs

  -- The maximum drawdown of a curve of finite values that are not negative lies between 0 and 1.
  pub max_drawdown-IsShare :
      (nav : List R)
      → All IsValue nav
      → ((nought ≼ max_drawdown nav) ≡ true) × ((max_drawdown nav ≼ lit 1 0) ≡ true)
  unfolding max_drawdown
  max_drawdown-IsShare [] h = (ord.nought_refl, r.lit_le 0 1 0 (omega arith))
  max_drawdown-IsShare (v ∷ nav) h =
      drawdown_from-IsShare v nought (v ∷ nav) h.0 (ord.nought_refl, r.lit_le 0 1 0 (omega arith)) h
