-- ===== src/Quant/Market.antt =====
-- internal/quant/market_state.go: the classification of the market.
pub mod Regime
use trandingnok.Base.{
  ℕ, ◌-◌, Bool, true, false, not, ◌&&◌, ◌||◌, List, [], ◌∷◌, ◌++◌, ltb, leb, ◌==◌, if◌then◌else◌,
  length, get_or, drop,
}
use trandingnok.Float.{Float64, ◌⊖◌, ◌⊘◌, ◌≺◌, ◌≼◌, lit, nought}
use trandingnok.Quant.Data.{RuntimeState}
use trandingnok.Quant.Maths.{ema, update_ema}

abbrev pub ema200_period : ℕ
ema200_period = 200

abbrev pub ema200_slope_bars : ℕ
ema200_slope_bars = 10

abbrev pub ema200_hist_max : ℕ
ema200_hist_max = 11

pub data State : Type 0 where
  quiet : State
  bear : State
  bull : State

abbrev pub is_quiet_state : State → Bool
is_quiet_state quiet = true
is_quiet_state bear = false
is_quiet_state bull = false

pub record MarketStateResult (R : Type 0) : Type 0 where
  pub state : State
  pub is_quiet : Bool
  pub beta_multiplier : R
  pub time_dilation_multiplier : R

pub record MarketStateInput (R : Type 0) : Type 0 where
  pub closes : List R
  pub highs : List R
  pub lows : List R
  pub price : R
  pub rt : RuntimeState R

-- `hist[len(hist)-n:]` where the history is longer than n.
abbrev pub keep_last {ℓ} : {A : Type ℓ} → ℕ → List A → List A
keep_last n hist = if ltb n (length hist) then drop (length hist - n) hist else hist

module _ {R : Type 0} ⦃f : Float64 R⦄ where
  -- The running maximum of the highs and minimum of the lows; the lists have one length.
  high_low : R → R → List R → List R → R × R
  high_low h l (x ∷ xs) (y ∷ ys) = high_low (if h ≺ x then x else h) (if y ≺ l then y else l) xs ys
  high_low h l _ _ = (h, l)

  -- `sigma24h`. The start stops at 0, as `-` on ℕ does.
  pub sigma24h : List R → List R → R
  unfolding high_low
  sigma24h highs lows =
      let n = length highs in
      if n == 0 || not (length lows == n)
      then nought
      else (let start = n - 24 in
          let (h24, l24) =
            high_low (f.neg f.max_float) f.max_float (drop start highs) (drop start lows) in
          if l24 ≼ nought then nought else (h24 ⊖ l24) ⊘ l24)

  -- `ema200Slope`.
  pub ema200_slope : List R → R
  ema200_slope hist =
      let m = length hist in
      if ltb m 2
      then nought
      else (let lookback = if leb m ema200_slope_bars then m - 1 else ema200_slope_bars in
          get_or hist (m - 1) nought ⊖ get_or hist (m - 1 - lookback) nought)

  -- The first half of `ComputeMarketState`: the new EMA200 and its history.
  unfoldable pub update_ema200 : MarketStateInput R → RuntimeState R
  update_ema200 i =
      let rt = i.rt in
      let ema200 =
        if f.eq rt.ema200 nought
        then ema i.closes ema200_period
        else update_ema rt.ema200 i.price ema200_period in
      let hist = rt.ema200_history ++ (ema200 ∷ []) in
      record rt { ema200 = ema200; ema200_history = keep_last ema200_hist_max hist }

  -- The second half: the priority QUIET, BEAR, BULL, with BEAR where the slope does not confirm.
  unfoldable pub classify : MarketStateInput R → RuntimeState R → State
  classify i rt =
      if sigma24h i.highs i.lows ≺ lit 15 3
      then quiet
      else if i.price ≺ rt.ema200
      then bear
      else if rt.ema200 ≺ i.price && nought ≺ ema200_slope rt.ema200_history
      then bull
      else bear

  -- `ComputeMarketState`.
  unfoldable pub compute_market_state : MarketStateInput R → MarketStateResult R × RuntimeState R
  unfolding update_ema200 classify
  compute_market_state i =
      let rt = update_ema200 i in
      let state = classify i rt in
      (
        record {
          state = state;
          is_quiet = is_quiet_state state;
          beta_multiplier = lit 1 0;
          time_dilation_multiplier = lit 1 0;
        },
        rt,
      )
