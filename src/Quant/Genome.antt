-- ===== src/Quant/Genome.antt =====
-- internal/quant/genome.go: the chromosome, its bounds, and the birth-time parameters.
pub mod Legal
use trandingnok.Base.{String}
use trandingnok.Float.{Float64, lit, nought}
use trandingnok.Quant.Maths.{clip_float64}

pub record Chromosome (R : Type 0) : Type 0 where
  pub dca_drop_pct : R
  pub sigmoid_sensitivity : R
  pub stop_loss_threshold : R

pub record SpawnPoint (R : Type 0) : Type 0 where
  pub base_currency : String
  pub trading_pair : String
  pub initial_capital : R
  pub reserve_floor : R
  pub roi_release_trigger : R
  pub release_ratio : R
  pub monthly_inject : R

pub record Bounds (R : Type 0) : Type 0 where
  pub dca_drop_pct_min : R
  pub dca_drop_pct_max : R
  pub sigmoid_sensitivity_min : R
  pub sigmoid_sensitivity_max : R
  pub stop_loss_threshold_min : R
  pub stop_loss_threshold_max : R

module _ {R : Type 0} ⦃f : Float64 R⦄ where
  -- `HardBounds`.
  abbrev pub hard_bounds : Bounds R
  hard_bounds = record {
    dca_drop_pct_min = lit 5 2;
    dca_drop_pct_max = lit 30 2;
    sigmoid_sensitivity_min = lit 1 0;
    sigmoid_sensitivity_max = lit 10 0;
    stop_loss_threshold_min = f.neg (lit 30 2);
    stop_loss_threshold_max = f.neg (lit 10 2);
  }

  -- `DefaultSeedChromosome`.
  abbrev pub default_seed_chromosome : Chromosome R
  default_seed_chromosome = record {
    dca_drop_pct = lit 10 2;
    sigmoid_sensitivity = lit 5 0;
    stop_loss_threshold = f.neg (lit 20 2);
  }

  -- The zero value of the struct.
  abbrev pub zero_spawn_point : SpawnPoint R
  zero_spawn_point = record {
    base_currency = "";
    trading_pair = "";
    initial_capital = nought;
    reserve_floor = nought;
    roi_release_trigger = nought;
    release_ratio = nought;
    monthly_inject = nought;
  }

  -- `ClampChromosome`.
  unfoldable pub clamp_chromosome : Chromosome R → Chromosome R
  clamp_chromosome c =
      let b : Bounds R = hard_bounds in
      record {
        dca_drop_pct = clip_float64 c.dca_drop_pct b.dca_drop_pct_min b.dca_drop_pct_max;
        sigmoid_sensitivity =
            clip_float64 c.sigmoid_sensitivity b.sigmoid_sensitivity_min b.sigmoid_sensitivity_max;
        stop_loss_threshold =
            clip_float64 c.stop_loss_threshold b.stop_loss_threshold_min b.stop_loss_threshold_max;
      }
