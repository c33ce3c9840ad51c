-- ===== src/Examples/Measures.antt =====
-- Runs of the market state, the lots, the baseline and the windows of internal/quant.
use trandingnok.Base.{◌≡◌, refl, [], ◌∷◌, map, arith, All}
use trandingnok.Float.Fixed.{Fixed, Fixed-IsOrdered, Fixed-IsRounded, fixed_float}
use trandingnok.Float.{lit}
use trandingnok.Examples.Sample.{dec, bar_at, fresh}
use trandingnok.Quant.Data.{last_bar}
use trandingnok.Quant.Genome.{Chromosome, clamp_chromosome}
use trandingnok.Quant.Genome.Legal.{IsLegal, clamp_chromosome-IsLegal}
use trandingnok.Quant.Market.{MarketStateInput}
use trandingnok.Quant.Ghost.{GhostDcaConfig}
use trandingnok.Quant.Crucible.{build_crucible_windows}
use trandingnok.Quant.Crucible.Windows.{Covers, build_crucible_windows-Covers}

-- A gene below, one within and one above its bounds.
abbrev wild : Chromosome Fixed
wild = record { dca_drop_pct = lit 1 2; sigmoid_sensitivity = dec 5; stop_loss_threshold = dec 1 }

clamp_chromosome-IsLegal_example : IsLegal (clamp_chromosome wild)
clamp_chromosome-IsLegal_example =
    clamp_chromosome-IsLegal Fixed-IsOrdered Fixed-IsRounded wild (refl, refl, refl)

abbrev market : MarketStateInput Fixed
market = record {
  closes = dec 100 ∷ dec 105 ∷ dec 110 ∷ [];
  highs = dec 105 ∷ dec 110 ∷ dec 115 ∷ [];
  lows = dec 100 ∷ dec 105 ∷ dec 110 ∷ [];
  price = dec 110;
  rt = fresh;
}

abbrev baseline : GhostDcaConfig Fixed
baseline = record { initial_capital = dec 1000; monthly_inject = dec 0 }

build_crucible_windows-Covers_example :
    let b = bar_at 0 100 in
    let bars = bar_at 300 110 ∷ bar_at 400 120 ∷ [] in
    let ws = build_crucible_windows (b ∷ bars) 1 in
    (map (λ w. w.label) ws ≡ "6m" ∷ "2y" ∷ "5y" ∷ "full" ∷ [])
    × (map (λ w. w.weight) ws ≡ lit 10 2 ∷ lit 20 2 ∷ lit 30 2 ∷ lit 40 2 ∷ [])
    × All (Covers b bars 1) ws
unfolding last_bar
build_crucible_windows-Covers_example =
    build_crucible_windows-Covers (bar_at 0 100) (bar_at 300 110 ∷ bar_at 400 120 ∷ []) 1
      (omega arith, omega arith) (omega arith, omega arith) (omega arith) (omega arith)
