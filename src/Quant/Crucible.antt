-- ===== src/Quant/Crucible.antt =====
-- internal/quant/crucible.go: the evaluation windows.
pub mod Windows
use trandingnok.Base.{
  ℕ, suc, ◌*◌, Option, none, some, List, [], ◌∷◌, String, leb, ◌==◌, if◌then◌else◌, length, drop, ℤ,
  pos, ◌-ℤ◌, leb_ℤ, wrap64,
}
use trandingnok.Float.{Float64, lit}
use trandingnok.Quant.Data.{Bar, last_bar}

abbrev pub default_warmup_days : ℕ
default_warmup_days = 1200

abbrev pub ms_per_day : ℕ
ms_per_day = 24 * 60 * 60 * 1000

pub record CrucibleWindow (R : Type 0) : Type 0 where
  pub label : String
  pub weight : R
  pub bars : List (Bar R)
  pub eval_start_ms : ℤ

pub record CrucibleResult (R : Type 0) : Type 0 where
  pub window : String
  pub score : R
  pub roi : R
  pub max_dd : R
  pub alpha : R

-- A window's label, weight and length in days; 0 days stand for the whole history.
pub record WindowSpec (R : Type 0) : Type 0 where
  pub label : String
  pub weight : R
  pub days : ℕ

-- The start of a window's evaluation: `days` before the last bar, at the earliest the first bar.
unfoldable pub eval_start : ℤ → ℤ → ℕ → ℤ
eval_start first_ms last_ms days =
    if days == 0
    then first_ms
    else (let start = wrap64 (last_ms -ℤ pos (days * ms_per_day)) in
        if leb_ℤ start first_ms then first_ms else start)

module _ {R : Type 0} where
  -- `findFirstIdx`: the first bar at or after a time, or the number of bars.
  unfoldable pub find_first_idx : List (Bar R) → ℤ → ℕ
  find_first_idx [] target_ms = 0
  find_first_idx (b ∷ bars) target_ms =
      if leb_ℤ target_ms b.open_time then 0 else suc (find_first_idx bars target_ms)

  -- One round of the loop: a window, or none where the data do not reach.
  unfoldable pub window_of : Bar R → List (Bar R) → ℕ → WindowSpec R → Option (CrucibleWindow R)
  window_of b bars warmup_days s =
      let all_bars = b ∷ bars in
      let last = last_bar b bars in
      let start_ms = eval_start b.open_time last.open_time s.days in
      if leb (length all_bars) (find_first_idx all_bars start_ms)
      then none
      else (let idx =
            find_first_idx all_bars (wrap64 (start_ms -ℤ pos (warmup_days * ms_per_day))) in
          some (record {
            label = s.label;
            weight = s.weight;
            bars = drop idx all_bars;
            eval_start_ms = start_ms;
          }))

  unfoldable pub windows_of :
      Bar R → List (Bar R) → ℕ → List (WindowSpec R) → List (CrucibleWindow R)
  windows_of b bars warmup_days [] = []
  windows_of b bars warmup_days (s ∷ specs) =
      let rest = windows_of b bars warmup_days specs in
      elim (window_of b bars warmup_days s) [ none ↦ rest | some w ↦ w ∷ rest ]

module _ {R : Type 0} ⦃f : Float64 R⦄ where
  abbrev pub window_specs : List (WindowSpec R)
  window_specs =
      record { label = "6m"; weight = lit 10 2; days = 183 }
      ∷ record { label = "2y"; weight = lit 20 2; days = 730 }
      ∷ record { label = "5y"; weight = lit 30 2; days = 1825 }
      ∷ record { label = "full"; weight = lit 40 2; days = 0 }
      ∷ []

  -- `BuildCrucibleWindows`.
  unfoldable pub build_crucible_windows : List (Bar R) → ℕ → List (CrucibleWindow R)
  build_crucible_windows [] warmup_days = []
  build_crucible_windows (b ∷ bars) warmup_days = windows_of b bars warmup_days window_specs
