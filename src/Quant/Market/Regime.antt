-- ===== src/Quant/Market/Regime.antt =====
-- internal/quant/market_state.go: the EMA history and the three regimes.
use trandingnok.Base.{
  ℕ, zero, suc, ◌+◌, ◌-◌, ◌≤◌, ◌≡◌, refl, ◌⊎◌, inl, inr, true, false, ◌&&◌, List, [], ◌∷◌, ◌++◌,
  arith, ltb, Bool-cases, length, get_or, drop, length-append, length-drop,
}
use trandingnok.Float.{Float64, ◌≺◌, lit, nought}
use trandingnok.Quant.Market.{
  quiet, bear, bull, MarketStateInput, ema200_hist_max, keep_last, sigma24h, ema200_slope,
  compute_market_state,
}

get_or-append_last {ℓ} :
    {A : Type ℓ} (xs : List A) (a d : A) → get_or (xs ++ (a ∷ [])) (length xs) d ≡ a
get_or-append_last [] a d = refl
get_or-append_last (x ∷ xs) a d = get_or-append_last xs a d

drop-append {ℓ} :
    {A : Type ℓ} (n : ℕ) (xs ys : List A) → n ≤ length xs → drop n (xs ++ ys) ≡ drop n xs ++ ys
drop-append zero xs ys h = refl
drop-append (suc n) [] ys h = absurd (omega arith)
drop-append (suc n) (x ∷ xs) ys h = drop-append n xs ys (omega arith)

-- What the history is: a tail of the old one, and the new value.
abbrev kept_history {ℓ} : {A : Type ℓ} → List A → List A
kept_history hist = drop (length hist + 1 - ema200_hist_max) hist

keep_last-append {ℓ} :
    {A : Type ℓ} (hist : List A) (a : A)
    → keep_last ema200_hist_max (hist ++ (a ∷ [])) ≡ kept_history hist ++ (a ∷ [])
keep_last-append hist a =
    let len = length-append hist (a ∷ []) in
    elim (Bool-cases (ltb ema200_hist_max (length hist + 1))) [
      | inl long ↦
          rw (len, long)
            (drop-append (length hist + 1 - ema200_hist_max) hist (a ∷ []) (ground arith))
      | inr short ↦
          let none_ : length hist + 1 - ema200_hist_max ≡ 0 = ground arith in rw (len, short, none_)
    ]

last_of_history {ℓ} :
    {A : Type ℓ} (hist : List A) (a d : A)
    → get_or (hist ++ (a ∷ [])) (length (hist ++ (a ∷ [])) - 1) d ≡ a
last_of_history hist a d =
    let e : length (hist ++ (a ∷ [])) - 1 ≡ length hist =
      omega (arith, length-append hist (a ∷ [])) in
    rw e (get_or-append_last hist a d)

length-history {ℓ} :
    {A : Type ℓ} (hist : List A) (a : A) → length (kept_history hist ++ (a ∷ [])) ≤ ema200_hist_max
length-history hist a = omega (
  arith,
  length-append (kept_history hist) (a ∷ []),
  length-drop (length hist + 1 - ema200_hist_max) hist,
)

module _ {R : Type 0} ⦃f : Float64 R⦄ where
  -- Every call leaves at most eleven values in the history, the newest last, and touches nothing
  -- of the runtime state but the average and its history.
  pub compute_market_state-history :
      (i : MarketStateInput R)
      → let rt = (compute_market_state i).1 in
        (length rt.ema200_history ≤ ema200_hist_max)
        × (get_or rt.ema200_history (length rt.ema200_history - 1) nought ≡ rt.ema200)
        × (rt.month_high ≡ i.rt.month_high)
        × (rt.month_str ≡ i.rt.month_str)
        × (rt.triggered_tiers ≡ i.rt.triggered_tiers)
        × (rt.stop_loss_hit ≡ i.rt.stop_loss_hit)
  unfolding compute_market_state
  compute_market_state-history i =
      let rt = (compute_market_state i).1 in
      let hist = i.rt.ema200_history in
      rw (keep_last-append hist rt.ema200) (
        length-history hist rt.ema200,
        last_of_history (kept_history hist) rt.ema200 nought,
        refl,
        refl,
        refl,
        refl,
      )

  -- The regime is QUIET exactly when the range is under 1.5%; otherwise it is BULL exactly when the
  -- price is above the new average and the average has risen, and else BEAR.
  pub compute_market_state-regime :
      (i : MarketStateInput R)
      → let (ms, rt) = compute_market_state i in
        let is_bull = rt.ema200 ≺ i.price && nought ≺ ema200_slope rt.ema200_history in
        (ms.is_quiet ≡ (sigma24h i.highs i.lows ≺ lit 15 3))
        × ((ms.state ≡ quiet) ⊎ (ms.is_quiet ≡ false))
        × (ms.is_quiet ≡ false → (i.price ≺ rt.ema200) ≡ true → ms.state ≡ bear)
        × (ms.is_quiet ≡ false → (i.price ≺ rt.ema200) ≡ false → is_bull ≡ true → ms.state ≡ bull)
        × (ms.is_quiet ≡ false → is_bull ≡ false → ms.state ≡ bear)
  unfolding compute_market_state
  compute_market_state-regime i = ground arith
