-- ===== src/Quant/Maths.antt =====
-- internal/quant/math.go: averages, deviations and rounding.
use trandingnok.Base.{ℕ, ◌+◌, ◌-◌, ◌||◌, List, [], ◌∷◌, ltb, leb, if◌then◌else◌, length, drop, pos}
use trandingnok.Float.{Float64, ◌⊕◌, ◌⊖◌, ◌⊗◌, ◌⊘◌, ◌≺◌, lit, nought}

module _ {R : Type 0} ⦃f : Float64 R⦄ where
  -- The smoothing factor 2 / (period + 1).
  alpha_of : ℕ → R
  alpha_of period = lit 2 0 ⊘ f.of_int (pos (period + 1))

  ema_from : R → R → List R → R
  ema_from alpha e [] = e
  ema_from alpha e (x ∷ xs) = ema_from alpha (alpha ⊗ x ⊕ (lit 1 0 ⊖ alpha) ⊗ e) xs

  -- `EMA`.
  pub ema : List R → ℕ → R
  unfolding alpha_of ema_from
  ema [] period = nought
  ema (x ∷ xs) period = if leb period 0 then nought else ema_from (alpha_of period) x xs

  -- `UpdateEMA`.
  pub update_ema : R → R → ℕ → R
  unfolding alpha_of
  update_ema prev price period =
      if leb period 0
      then price
      else let alpha = alpha_of period in alpha ⊗ price ⊕ (lit 1 0 ⊖ alpha) ⊗ prev

  -- The last `period` elements; the start stops at 0, as `-` on ℕ does.
  last_window : List R → ℕ → List R
  last_window series period = drop (length series - period) series

  sum_from : R → List R → R
  sum_from acc [] = acc
  sum_from acc (x ∷ xs) = sum_from (acc ⊕ x) xs

  squares_from : R → R → List R → R
  squares_from mean acc [] = acc
  squares_from mean acc (x ∷ xs) = let d = x ⊖ mean in squares_from mean (acc ⊕ d ⊗ d) xs

  -- `StdDev`.
  pub std_dev : List R → ℕ → R
  unfolding last_window sum_from squares_from
  std_dev series period =
      if ltb (length series) 2 || ltb period 2
      then nought
      else (let window = last_window series period in
          let m = length window in
          if ltb m 2
          then nought
          else (let mean = sum_from nought window ⊘ f.of_int (pos m) in
              f.sqrt (squares_from mean nought window ⊘ f.of_int (pos (m - 1)))))

  changes_from : R → R → List R → R
  changes_from acc prev [] = acc
  changes_from acc prev (x ∷ xs) =
      let d = x ⊖ prev in changes_from (acc ⊕ (if d ≺ nought then f.neg d else d)) x xs

  changes : List R → R
  unfolding changes_from
  changes [] = nought
  changes (x ∷ xs) = changes_from nought x xs

  -- `MAVAbsChange`.
  pub mav_abs_change : List R → ℕ → R
  unfolding last_window changes
  mav_abs_change closes l =
      if ltb (length closes) 2 || ltb l 2
      then nought
      else (let window = last_window closes l in
          let m = length window in
          if ltb m 2 then nought else changes window ⊘ f.of_int (pos (m - 1)))

  -- `ClipFloat64`.
  unfoldable pub clip_float64 : R → R → R → R
  clip_float64 v lo hi = if v ≺ lo then lo else if hi ≺ v then hi else v

  -- `RoundToUSDT`.
  unfoldable pub round_to_usdt : R → R
  round_to_usdt v = f.round (v ⊗ lit 100 0) ⊘ lit 100 0
