-- ===== src/Quant/Ghost/BuyAndHold.antt =====
-- internal/quant/ghost_dca.go: the baseline without injections.
use trandingnok.Base.{◌≡◌, refl, true, false, List, [], ◌∷◌, arith, ℤ}
use trandingnok.Float.{Float64, ◌⊕◌, ◌⊗◌, ◌⊘◌, ◌≺◌, ◌≼◌, nought}
use trandingnok.Quant.Data.{Bar, last_bar}
use trandingnok.Quant.Dietz.{sum_flows, dietz_roi}
use trandingnok.Quant.Ghost.{
  GhostDcaConfig, GhostRun, ghost_bar, ghost_bars, ghost_start, simulate_ghost_dca,
}

module _ {R : Type 0} ⦃f : Float64 R⦄ (inject : R) (first_time : ℤ) where
  -- Without an injection the holding never changes.
  ghost_bars-hold :
      (prev_close : R) (bars : List (Bar R)) (g : GhostRun R)
      → (nought ≺ inject) ≡ false
      → ((ghost_bars inject first_time prev_close bars g).btc ≡ g.btc)
        × ((ghost_bars inject first_time prev_close bars g).flows ≡ g.flows)
  unfolding ghost_bars ghost_bar
  ghost_bars-hold prev_close [] g h = (refl, refl)
  ghost_bars-hold prev_close (b ∷ bars) g h =
      ground (arith, ghost_bars-hold b.close bars (ghost_bar inject first_time prev_close b g) h)

module _ {R : Type 0} ⦃f : Float64 R⦄ where
  -- With a positive capital, a first close above 0 and no monthly injection the baseline is to buy
  -- and hold: the capital over the first close, at the last close, and nothing more is paid in.
  pub simulate_ghost_dca-hold :
      (cfg : GhostDcaConfig R) (b : Bar R) (bars : List (Bar R))
      → (cfg.initial_capital ≼ nought) ≡ false
      → (nought ≺ b.close) ≡ true
      → (nought ≺ cfg.monthly_inject) ≡ false
      → let res = simulate_ghost_dca cfg (b ∷ bars) in
        let final = cfg.initial_capital ⊘ b.close ⊗ (last_bar b bars).close in
        (res.final_equity ≡ final)
        × (res.total_injected ≡ cfg.initial_capital ⊕ nought)
        × (res.roi ≡ dietz_roi cfg.initial_capital final nought nought)
  unfolding simulate_ghost_dca ghost_start sum_flows
  simulate_ghost_dca-hold cfg b bars cap pos_ none_ =
      let (held, flows) =
        ghost_bars-hold cfg.monthly_inject b.open_time b.close bars (ghost_start cfg b) none_ in
      rw (cap, held, flows, pos_) (refl, refl, refl)
