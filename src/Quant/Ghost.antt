-- ===== src/Quant/Ghost.antt =====
-- internal/quant/ghost_dca.go: the passive baseline of the fitness score.
pub mod BuyAndHold
use trandingnok.Base.{not, ◌&&◌, List, [], ◌∷◌, ◌++◌, if◌then◌else◌, ℤ, eqb_ℤ}
use trandingnok.Float.{Float64, ◌⊕◌, ◌⊗◌, ◌⊘◌, ◌≺◌, ◌≼◌, nought}
use trandingnok.Quant.Data.{Bar, last_bar}
use trandingnok.Quant.Calendar.{month_of, days_since}
use trandingnok.Quant.Drawdown.{max_drawdown}
use trandingnok.Quant.Dietz.{CashFlow, sum_flows, dietz_roi}

pub record GhostDcaConfig (R : Type 0) : Type 0 where
  pub initial_capital : R
  pub monthly_inject : R

pub record GhostDcaResult (R : Type 0) : Type 0 where
  pub final_equity : R
  pub total_injected : R
  pub max_drawdown : R
  pub roi : R

-- The variables of the loop over the bars after the first.
pub record GhostRun (R : Type 0) : Type 0 where
  pub btc : R
  pub nav_curve : List R
  pub flows : List (CashFlow R)
  pub prev_month : ℤ

module _ {R : Type 0} ⦃f : Float64 R⦄ where
  -- One bar of the loop, given the close of the bar before it and the time of the first bar.
  unfoldable pub ghost_bar : R → ℤ → R → Bar R → GhostRun R → GhostRun R
  ghost_bar monthly_inject first_time prev_close b g =
      if b.close ≼ nought
      then record g { nav_curve = g.nav_curve ++ (g.btc ⊗ prev_close ∷ []) }
      else (let m = month_of b.open_time in
          let g' =
            if not (eqb_ℤ m g.prev_month) && nought ≺ monthly_inject
            then record g {
              prev_month = m;
              btc = g.btc ⊕ monthly_inject ⊘ b.close;
              flows =
                  g.flows
                  ++ (record { day = days_since first_time b.open_time; amount = monthly_inject }
                      ∷ []);
            }
            else g in
          record g' { nav_curve = g'.nav_curve ++ (g'.btc ⊗ b.close ∷ []) })

  unfoldable pub ghost_bars : R → ℤ → R → List (Bar R) → GhostRun R → GhostRun R
  ghost_bars monthly_inject first_time prev_close [] g = g
  ghost_bars monthly_inject first_time prev_close (b ∷ bars) g =
      ghost_bars monthly_inject first_time b.close bars
        (ghost_bar monthly_inject first_time prev_close b g)

  -- The purchase on the first bar.
  unfoldable pub ghost_start : GhostDcaConfig R → Bar R → GhostRun R
  ghost_start cfg b =
      let btc = if nought ≺ b.close then cfg.initial_capital ⊘ b.close else nought in
      record {
        btc = btc;
        nav_curve = btc ⊗ b.close ∷ [];
        flows = [];
        prev_month = month_of b.open_time;
      }

  abbrev pub zero_result : GhostDcaResult R
  zero_result = record {
    final_equity = nought;
    total_injected = nought;
    max_drawdown = nought;
    roi = nought;
  }

  -- `SimulateGhostDCA`.
  unfoldable pub simulate_ghost_dca : GhostDcaConfig R → List (Bar R) → GhostDcaResult R
  simulate_ghost_dca cfg [] = zero_result
  simulate_ghost_dca cfg (b ∷ bars) =
      if cfg.initial_capital ≼ nought
      then zero_result
      else (let final_bar = last_bar b bars in
          let total_days = days_since b.open_time final_bar.open_time in
          let g = ghost_bars cfg.monthly_inject b.open_time b.close bars (ghost_start cfg b) in
          let final = g.btc ⊗ final_bar.close in
          let v_start = cfg.initial_capital in
          let (sum_f, weighted_f) = sum_flows total_days nought nought g.flows in
          record {
            final_equity = final;
            total_injected = v_start ⊕ sum_f;
            max_drawdown = max_drawdown g.nav_curve;
            roi = dietz_roi v_start final sum_f weighted_f;
          })
