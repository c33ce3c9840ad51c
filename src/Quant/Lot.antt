-- ===== src/Quant/Lot.antt =====
-- internal/quant/lot.go: the release of dead stack into floating stack.
pub mod Bounded
use trandingnok.Base.{◌||◌, if◌then◌else◌}
use trandingnok.Float.{Float64, ◌⊕◌, ◌⊖◌, ◌⊗◌, ◌⊘◌, ◌≺◌, ◌≼◌, nought}
use trandingnok.Quant.Data.{PortfolioState}
use trandingnok.Quant.Genome.{SpawnPoint}

pub record ReleaseResult (R : Type 0) : Type 0 where
  pub dead_stack : R
  pub float_stack : R
  pub released : R

module _ {R : Type 0} ⦃f : Float64 R⦄ where
  -- The net asset value of a portfolio at a price.
  abbrev pub nav_at : PortfolioState R → R → R
  nav_at p price = p.total_usdt ⊕ (p.dead_stack ⊕ p.float_stack ⊕ p.cold_sealed_stack) ⊗ price

  -- The return on the initial value.
  abbrev pub roi_at : PortfolioState R → R → R
  roi_at p price = (nav_at p price ⊖ p.nav_initial) ⊘ p.nav_initial

  -- `TryReleaseDeadToFloat`.
  unfoldable pub try_release_dead_to_float : PortfolioState R → SpawnPoint R → R → ReleaseResult R
  try_release_dead_to_float p spawn price =
      let res : ReleaseResult R = record {
        dead_stack = p.dead_stack;
        float_stack = p.float_stack;
        released = nought;
      } in
      if p.dead_stack ≼ nought || price ≼ nought || p.nav_initial ≼ nought
      then res
      else if roi_at p price ≺ spawn.roi_release_trigger
      then res
      else (let release_qty = p.dead_stack ⊗ spawn.release_ratio in
          if release_qty ≼ nought then res else record {
            dead_stack = p.dead_stack ⊖ release_qty;
            float_stack = p.float_stack ⊕ release_qty;
            released = release_qty;
          })
