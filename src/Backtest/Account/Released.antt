-- ===== src/Backtest/Account/Released.antt =====
-- internal/adapters/backtest/adapter.go and internal/quant/lot.go: the strategy's release intent
-- against the account.
use trandingnok.Base.{◌≡◌, ◌∙◌, true, false, some, arith}
use trandingnok.Float.{IsOrdered, IsRounded, Float64, ◌≺◌, ◌≼◌, lit, nought}
use trandingnok.Quant.Data.{PortfolioState, TradeIntent}
use trandingnok.Quant.Genome.{SpawnPoint}
use trandingnok.Quant.Lot.{try_release_dead_to_float}
use trandingnok.Quant.Lot.Bounded.{try_release-bounded}
use trandingnok.Strategy.SigmoidDca.{run_release}
use trandingnok.Backtest.Account.{Fees, apply_release, apply_intent}

module _ {R : Type 0} ⦃f : Float64 R⦄ (ord : IsOrdered R) (r : IsRounded R) where
  open ord use {refl_of_le, lt-eq-not-le}

  release_agrees :
      (p : PortfolioState R) (spawn : SpawnPoint R) (price : R) (fees : Fees R) (t : TradeIntent R)
      → let res = try_release_dead_to_float p spawn price in
        (p.dead_stack ≺ res.released) ≡ false
        → run_release p spawn price ≡ some t
        → apply_intent t p price fees
          ≡ record p { dead_stack = res.dead_stack; float_stack = res.float_stack }
  unfolding run_release apply_intent apply_release try_release_dead_to_float
  release_agrees p spawn price fees t le e = ground (arith, ord.nought_refl)

  -- The account carries out the strategy's release intent as the ledger rule computes it, with the
  -- same new stacks, for a finite dead stack that is not negative and a ratio between 0 and 1.
  pub apply_intent-run_release :
      (p : PortfolioState R) (spawn : SpawnPoint R) (price : R) (fees : Fees R) (t : TradeIntent R)
      → r.finite p.dead_stack ≡ true
      → (nought ≼ p.dead_stack) ≡ true
      → (nought ≼ spawn.release_ratio) ≡ true
      → (spawn.release_ratio ≼ lit 1 0) ≡ true
      → run_release p spawn price ≡ some t
      → let res = try_release_dead_to_float p spawn price in
        apply_intent t p price fees
        ≡ record p { dead_stack = res.dead_stack; float_stack = res.float_stack }
  apply_intent-run_release p spawn price fees t fin d q one e =
      let res = try_release_dead_to_float p spawn price in
      let (pos_, le, _, _, _) = try_release-bounded ord r p spawn price fin d q one in
      let ordered =
        lt-eq-not-le p.dead_stack res.released (r.le_refl_of_finite _ fin) (refl_of_le _ _ le).0 in
      release_agrees p spawn price fees t (ordered ∙ rw le) e
