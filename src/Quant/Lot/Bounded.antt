-- ===== src/Quant/Lot/Bounded.antt =====
-- internal/quant/lot.go: what a release moves.
use trandingnok.Base.{◌≡◌, true, false, arith}
use trandingnok.Float.{IsOrdered, IsRounded, Float64, ◌⊗◌, ◌≺◌, ◌≼◌, lit, nought}
use trandingnok.Quant.Data.{PortfolioState}
use trandingnok.Quant.Genome.{SpawnPoint}
use trandingnok.Quant.Lot.{roi_at, try_release_dead_to_float}

module _ {R : Type 0} ⦃f : Float64 R⦄ (ord : IsOrdered R) (r : IsRounded R) where
  -- With a finite dead stack that is not negative and a release ratio between 0 and 1, a release
  -- moves between nothing and the whole dead stack, leaves no negative stack, moves something only
  -- where the return has reached the trigger, and otherwise changes neither stack.
  pub try_release-bounded :
      (p : PortfolioState R) (spawn : SpawnPoint R) (price : R)
      → r.finite p.dead_stack ≡ true
      → (nought ≼ p.dead_stack) ≡ true
      → (nought ≼ spawn.release_ratio) ≡ true
      → (spawn.release_ratio ≼ lit 1 0) ≡ true
      → let res = try_release_dead_to_float p spawn price in
        ((nought ≼ res.released) ≡ true)
        × ((res.released ≼ p.dead_stack) ≡ true)
        × ((nought ≼ res.dead_stack) ≡ true)
        × ((res.released ≼ nought) ≡ false → (roi_at p price ≺ spawn.roi_release_trigger) ≡ false)
        × ((res.released ≼ nought) ≡ true
            → (res.dead_stack ≡ p.dead_stack) × (res.float_stack ≡ p.float_stack))
  unfolding try_release_dead_to_float
  try_release-bounded p spawn price fin d q one =
      let qty = p.dead_stack ⊗ spawn.release_ratio in
      let zero_ = ord.nought_refl in
      let le = r.mul-le_left p.dead_stack spawn.release_ratio fin d q one in
      ground (
        arith,
        ord.refl_of_le qty p.dead_stack le,
        ord.le_total qty nought (ord.refl_of_le qty p.dead_stack le).0 zero_,
        r.sub_nonneg p.dead_stack qty
            (r.finite_of_between nought qty p.dead_stack (r.lit_finite 0 0 (omega arith)) fin
              (r.mul_nonneg p.dead_stack spawn.release_ratio fin
                (r.finite_of_between nought spawn.release_ratio (lit 1 0)
                  (r.lit_finite 0 0 (omega arith)) (r.lit_finite 1 0 (omega arith)) q one)
                d q)
              le)
            le,
      )
