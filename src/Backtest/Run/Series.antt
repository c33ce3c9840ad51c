-- ===== src/Backtest/Run/Series.antt =====
-- internal/adapters/backtest/adapter.go: the series that the strategy sees, and the account.
use trandingnok.Base.{◌≡◌, refl, sym, ◌∙◌, true, List, [], ◌∷◌, ◌++◌, arith}
use trandingnok.Float.{Float64, nought}
use trandingnok.Quant.Data.{Bar, extract_closes, extract_highs, extract_lows, extract_timestamps}
use trandingnok.Strategy.Types.{Strategy}
use trandingnok.Backtest.Account.Settled.{IsSettled, apply_intents-Frame}
use trandingnok.Backtest.Run.{
  Config, RunState, input_of, start_state, push_bar, enter_eval, inject, trade, run_bar, run_bars,
}
use mathlib.Core.List.{append-nil, append_assoc}

module _ {R : Type 0} ⦃f : Float64 R⦄ (cfg : Config R) (strat : Strategy R) where
  -- The four series of a state, and those of a list of bars appended.
  pub record Extends (bars : List (Bar R)) (s t : RunState R) : Type 0 where
    pub closes : t.closes ≡ s.closes ++ extract_closes bars
    pub highs : t.highs ≡ s.highs ++ extract_highs bars
    pub lows : t.lows ≡ s.lows ++ extract_lows bars
    pub timestamps : t.timestamps ≡ s.timestamps ++ extract_timestamps bars

  run_bar-Extends : (b : Bar R) (s : RunState R) → Extends (b ∷ []) s (run_bar cfg strat b s)
  unfolding run_bar push_bar enter_eval inject trade extract_closes extract_highs extract_lows
      extract_timestamps
  run_bar-Extends b s = ground arith

  run_bars-Extends :
      (bars : List (Bar R)) (s : RunState R) → Extends bars s (run_bars cfg strat bars s)
  unfolding run_bars extract_closes extract_highs extract_lows extract_timestamps
  run_bars-Extends [] s = record {
    closes = sym (append-nil _);
    highs = sym (append-nil _);
    lows = sym (append-nil _);
    timestamps = sym (append-nil _);
  }
  run_bars-Extends (b ∷ bars) s =
      let one = run_bar-Extends b s in
      let rest = run_bars-Extends bars (run_bar cfg strat b s) in
      record {
        closes =
            rest.closes
            ∙ rw one.closes (append_assoc s.closes (b.close ∷ []) (extract_closes bars));
        highs = rest.highs ∙ rw one.highs (append_assoc s.highs (b.high ∷ []) (extract_highs bars));
        lows = rest.lows ∙ rw one.lows (append_assoc s.lows (b.low ∷ []) (extract_lows bars));
        timestamps =
            rest.timestamps
            ∙ rw one.timestamps
                (append_assoc s.timestamps (b.open_time ∷ []) (extract_timestamps bars));
      }

  -- After any bars the strategy sees exactly the closes, highs, lows and times of those bars, in
  -- order, whatever it decided on the way.
  pub run_bars-series :
      (bars : List (Bar R))
      → let s = run_bars cfg strat bars (start_state cfg) in
        (s.closes ≡ extract_closes bars)
        × (s.highs ≡ extract_highs bars)
        × (s.lows ≡ extract_lows bars)
        × (s.timestamps ≡ extract_timestamps bars)
  run_bars-series bars =
      let e = run_bars-Extends bars (start_state cfg) in (e.closes, e.highs, e.lows, e.timestamps)

  -- The account of a run: the settings stay, and the spendable amount follows the balance as soon
  -- as the evaluation begins.
  pub record Sound (s : RunState R) : Type 0 where
    pub reserve : s.portfolio.reserve_floor ≡ cfg.spawn_point.reserve_floor
    pub sealed : s.portfolio.cold_sealed_stack ≡ nought
    pub initial : s.portfolio.nav_initial ≡ cfg.spawn_point.initial_capital
    pub settled : s.in_eval ≡ true → IsSettled s.portfolio

  push_bar-Sound : (b : Bar R) (s : RunState R) → Sound s → Sound (push_bar b s)
  unfolding push_bar
  push_bar-Sound b s h = record {
    reserve = h.reserve;
    sealed = h.sealed;
    initial = h.initial;
    settled = h.settled;
  }

  enter_eval-Sound : (b : Bar R) (s : RunState R) → Sound s → Sound (enter_eval cfg b s)
  unfolding enter_eval
  enter_eval-Sound b s h = ground arith

  inject-Sound : (b : Bar R) (s : RunState R) → Sound s → Sound (inject cfg b s)
  unfolding inject
  inject-Sound b s h = ground arith

  trade-Sound : (b : Bar R) (s : RunState R) → Sound s → Sound (trade cfg strat b s)
  unfolding trade
  trade-Sound b s h =
      let out = strat (input_of cfg s) in
      let (frame, keep) = apply_intents-Frame out.intents s.portfolio b.close cfg.fees in
      ground arith

  run_bars-Sound :
      (bars : List (Bar R)) (s : RunState R) → Sound s → Sound (run_bars cfg strat bars s)
  unfolding run_bars run_bar
  run_bars-Sound [] s h = h
  run_bars-Sound (b ∷ bars) s h =
      run_bars-Sound bars (run_bar cfg strat b s)
        (trade-Sound b _ (inject-Sound b _ (enter_eval-Sound b _ (push_bar-Sound b s h))))

  -- After any bars, whatever the strategy decides, the reserve, the empty sealed stack and the
  -- initial value are those of the start, and from the first evaluation bar on the spendable amount
  -- is what the balance leaves above the reserve.
  pub run_bars-start_Sound :
      (bars : List (Bar R)) → Sound (run_bars cfg strat bars (start_state cfg))
  run_bars-start_Sound bars = run_bars-Sound bars (start_state cfg) (ground arith)

  -- The state of a run on the last of some bars, when the strategy is called.
  abbrev pub called : List (Bar R) → Bar R → RunState R
  called bars b =
      inject cfg b (enter_eval cfg b (push_bar b (run_bars cfg strat bars (start_state cfg))))

  pub called-Sound : (bars : List (Bar R)) (b : Bar R) → Sound (called bars b)
  called-Sound bars b =
      inject-Sound b _ (enter_eval-Sound b _ (push_bar-Sound b _ (run_bars-start_Sound bars)))

  run_bars-append :
      (bars : List (Bar R)) (b : Bar R) (s : RunState R)
      → run_bars cfg strat (bars ++ (b ∷ [])) s ≡ run_bar cfg strat b (run_bars cfg strat bars s)
  unfolding run_bars
  run_bars-append [] b s = refl
  run_bars-append (c ∷ bars) b s = run_bars-append bars b (run_bar cfg strat c s)

  -- A run ends with the trade on its last bar.
  pub run_bars-trade :
      (bars : List (Bar R)) (b : Bar R)
      → run_bars cfg strat (bars ++ (b ∷ [])) (start_state cfg) ≡ trade cfg strat b (called bars b)
  unfolding run_bar
  run_bars-trade bars b = run_bars-append bars b (start_state cfg)

  trade-series :
      (b : Bar R) (s : RunState R)
      → let t = trade cfg strat b s in
        (t.closes ≡ s.closes)
        × (t.highs ≡ s.highs)
        × (t.lows ≡ s.lows)
        × (t.timestamps ≡ s.timestamps)
  unfolding trade
  trade-series b s = ground arith

  -- The strategy is called with the series of all bars, the last one included.
  pub called-series :
      (bars : List (Bar R)) (b : Bar R)
      → let s = called bars b in
        let all_bars = bars ++ (b ∷ []) in
        (s.closes ≡ extract_closes all_bars)
        × (s.highs ≡ extract_highs all_bars)
        × (s.lows ≡ extract_lows all_bars)
        × (s.timestamps ≡ extract_timestamps all_bars)
  called-series bars b =
      let (closes, highs, lows, times) =
        rw (run_bars-trade bars b) at (run_bars-series (bars ++ (b ∷ []))) in
      let (c, h, l, t) = trade-series b (called bars b) in
      (sym c ∙ closes, sym h ∙ highs, sym l ∙ lows, sym t ∙ times)
