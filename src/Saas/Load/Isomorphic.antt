-- ===== src/Saas/Load/Isomorphic.antt =====
-- internal/saas/instance/manager.go and internal/adapters/backtest/adapter.go: the live tick and the
-- backtest ask the strategy the same question.
use trandingnok.Base.{◌≡◌, sym, ◌∙◌, true, List, [], ◌∷◌, ◌++◌, if◌then◌else◌, arith}
use trandingnok.Float.{Float64, ◌⊖◌, ◌≺◌, nought}
use trandingnok.Quant.Data.{Bar}
use trandingnok.Strategy.Types.{Strategy}
use trandingnok.Backtest.Run.{Config, RunState, input_of, start_state, trade, run_bars}
use trandingnok.Backtest.Run.Series.{called, called-series, called-Sound, run_bars-trade}
use trandingnok.Saas.Store.{PortfolioRow}
use trandingnok.Saas.Load.{tick_account, tick_input}
use trandingnok.Backtest.Account.{clamp0, apply_intents}

module _ {R : Type 0} ⦃f : Float64 R⦄ (cfg : Config R) (strat : Strategy R) where
  -- An account row that holds what the simulated account holds.
  pub record Mirrors (p : PortfolioRow R) (s : RunState R) : Type 0 where
    pub balance : p.usdt_balance ≡ s.portfolio.total_usdt
    pub dead : p.dead_btc ≡ s.portfolio.dead_stack
    pub floating : p.float_btc ≡ s.portfolio.float_stack
    pub sealed : p.cold_sealed_btc ≡ nought

  -- The live input in every field, at the call on the last of some bars.
  tick_input-called :
      (bars : List (Bar R)) (b : Bar R) (p : PortfolioRow R)
      → let s = called cfg strat bars b in
        Mirrors p s
        → s.in_eval ≡ true
        → tick_input (bars ++ (b ∷ [])) p s.runtime (cfg.chromosome, cfg.spawn_point)
          ≡ input_of cfg s
  unfolding tick_input
  tick_input-called bars b p m eval =
      let s = called cfg strat bars b in
      let (closes, highs, lows, times) = called-series cfg strat bars b in
      let sound = called-Sound cfg strat bars b in
      let settled = sound.settled eval in
      let spendable : clamp0 (p.usdt_balance ⊖ cfg.spawn_point.reserve_floor)
          ≡ s.portfolio.spendable_usdt =
        cc in
      let account : tick_account p cfg.spawn_point ≡ s.portfolio = λ i. record {
        total_usdt = m.balance i;
        reserve_floor = sym sound.reserve i;
        spendable_usdt = spendable i;
        dead_stack = m.dead i;
        float_stack = m.floating i;
        cold_sealed_stack = (m.sealed ∙ sym sound.sealed) i;
        nav_initial = sym sound.initial i;
      } in
      λ i. record {
        closes = sym closes i;
        highs = sym highs i;
        lows = sym lows i;
        timestamps = sym times i;
        portfolio = account i;
        runtime = s.runtime;
        params = cfg.chromosome;
        spawn_point = cfg.spawn_point;
      }

  trade-evaluated :
      (b : Bar R) (s : RunState R)
      → s.in_eval ≡ true
      → let out = strat (input_of cfg s) in
        ((trade cfg strat b s).runtime ≡ out.runtime)
        × ((trade cfg strat b s).portfolio ≡ (
            if nought ≺ b.close
            then apply_intents out.intents s.portfolio b.close cfg.fees
            else s.portfolio))
  unfolding trade
  trade-evaluated b s eval = ground arith

  -- Take a bar of the evaluation period and the state of the backtest when it calls the strategy on
  -- it, after the month's injection and before the trade. An instance with the same chromosome and
  -- spawn point whose tick fetches the same bars, whose row holds what the simulated account holds
  -- and whose runtime state is that of the run gives its strategy exactly that input, in every
  -- field; and the backtest goes on with what the strategy answers to the input of the tick: the
  -- runtime state is the answer's, and its intents are carried out on the account at the close.
  pub tick_input-called_input :
      (bars : List (Bar R)) (b : Bar R) (p : PortfolioRow R)
      → let s = called cfg strat bars b in
        Mirrors p s
        → s.in_eval ≡ true
        → let live = tick_input (bars ++ (b ∷ [])) p s.runtime (cfg.chromosome, cfg.spawn_point) in
          let t = run_bars cfg strat (bars ++ (b ∷ [])) (start_state cfg) in
          (live ≡ input_of cfg s)
          × (t.runtime ≡ (strat live).runtime)
          × (t.portfolio ≡ (
              if nought ≺ b.close
              then apply_intents (strat live).intents s.portfolio b.close cfg.fees
              else s.portfolio))
  tick_input-called_input bars b p m eval =
      let s = called cfg strat bars b in
      let same = tick_input-called bars b p m eval in
      let (runtime, portfolio) = trade-evaluated b s eval in
      (
        same,
        rw (run_bars-trade cfg strat bars b, same) runtime,
        rw (run_bars-trade cfg strat bars b, same) portfolio,
      )
