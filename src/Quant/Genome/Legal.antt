-- ===== src/Quant/Genome/Legal.antt =====
-- internal/quant/genome.go and math.go: clamping repairs a chromosome, once and for all.
use trandingnok.Base.{◌≡◌, true, arith}
use trandingnok.Float.{IsOrdered, IsRounded, IsNumber, Float64, ◌≼◌}
use trandingnok.Quant.Maths.{clip_float64}
use trandingnok.Quant.Genome.{Chromosome, Bounds, hard_bounds, clamp_chromosome}

module _ {R : Type 0} ⦃f : Float64 R⦄ where
  abbrev pub Within : R → R → R → Type 0
  Within lo hi x = ((lo ≼ x) ≡ true) × ((x ≼ hi) ≡ true)

  abbrev pub AreNumbers : Chromosome R → Type 0
  AreNumbers c =
      IsNumber c.dca_drop_pct × IsNumber c.sigmoid_sensitivity × IsNumber c.stop_loss_threshold

  -- Every gene lies within its hard bounds.
  abbrev pub IsLegal : Chromosome R → Type 0
  IsLegal c =
      let b : Bounds R = hard_bounds in
      Within b.dca_drop_pct_min b.dca_drop_pct_max c.dca_drop_pct
      × Within b.sigmoid_sensitivity_min b.sigmoid_sensitivity_max c.sigmoid_sensitivity
      × Within b.stop_loss_threshold_min b.stop_loss_threshold_max c.stop_loss_threshold

  module _ (ord : IsOrdered R) where
    open ord use {refl_of_le, le_total, lt-eq-not-le}

    clip-Within :
        (v lo hi : R) → IsNumber v → (lo ≼ hi) ≡ true → Within lo hi (clip_float64 v lo hi)
    unfolding clip_float64
    clip-Within v lo hi n h =
        let (l, u) = refl_of_le lo hi h in
        ground (
          arith,
          lt-eq-not-le v lo n l,
          lt-eq-not-le hi v u n,
          le_total v hi n u,
          le_total lo v l n,
        )

    clip_Within : (v lo hi : R) → Within lo hi v → clip_float64 v lo hi ≡ v
    unfolding clip_float64
    clip_Within v lo hi (h, k) =
        let (l, n) = refl_of_le lo v h in
        let (_, u) = refl_of_le v hi k in
        ground (arith, lt-eq-not-le v lo n l, lt-eq-not-le hi v u n)

    -- The bounds themselves are in order.
    abbrev pub BoundsOrdered : Type 0
    BoundsOrdered =
        let b : Bounds R = hard_bounds in
        ((b.dca_drop_pct_min ≼ b.dca_drop_pct_max) ≡ true)
        × ((b.sigmoid_sensitivity_min ≼ b.sigmoid_sensitivity_max) ≡ true)
        × ((b.stop_loss_threshold_min ≼ b.stop_loss_threshold_max) ≡ true)

    bounds_ordered : IsRounded R → BoundsOrdered
    bounds_ordered r = (
      r.lit_le 5 30 2 (omega arith),
      r.lit_le 1 10 0 (omega arith),
      r.neg_le _ _ (r.lit_le 10 30 2 (omega arith)),
    )

    -- Clamping a chromosome without NaN gives a legal one.
    pub clamp_chromosome-IsLegal :
        (r : IsRounded R) (c : Chromosome R) → AreNumbers c → IsLegal (clamp_chromosome c)
    unfolding clamp_chromosome
    clamp_chromosome-IsLegal r c (a, b, d) =
        let (l, m, n) = bounds_ordered r in
        (clip-Within _ _ _ a l, clip-Within _ _ _ b m, clip-Within _ _ _ d n)

    -- Clamping leaves a legal chromosome as it is.
    pub clamp_chromosome_legal : (c : Chromosome R) → IsLegal c → clamp_chromosome c ≡ c
    unfolding clamp_chromosome
    clamp_chromosome_legal c (a, b, d) =
        let e = clip_Within _ _ _ a in
        let g = clip_Within _ _ _ b in
        let h = clip_Within _ _ _ d in
        λ i. record { dca_drop_pct = e i; sigmoid_sensitivity = g i; stop_loss_threshold = h i }

    legal-AreNumbers : (c : Chromosome R) → IsLegal c → AreNumbers c
    legal-AreNumbers c (a, b, d) =
        ((refl_of_le _ _ a.0).1, (refl_of_le _ _ b.0).1, (refl_of_le _ _ d.0).1)

    -- A second clamp changes nothing.
    pub clamp_chromosome_idem :
        (r : IsRounded R) (c : Chromosome R)
        → AreNumbers c
        → clamp_chromosome (clamp_chromosome c) ≡ clamp_chromosome c
    clamp_chromosome_idem r c n = clamp_chromosome_legal _ (clamp_chromosome-IsLegal r c n)
