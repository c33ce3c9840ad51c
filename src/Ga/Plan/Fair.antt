-- ===== src/Ga/Plan/Fair.antt =====
-- internal/saas/ga/engine.go: the strategy and its baseline are measured over the same bars.
use trandingnok.Base.{
  ℕ, zero, suc, ◌+◌, ◌≤◌, ◌≡◌, refl, ap, inl, inr, Bool, false, some, List, [], ◌∷◌, ◌++◌, map,
  arith, String, Bool-cases, length, take, drop, All, length-append, All-mono, ℤ, ◌-ℤ◌, ◌≤ℤ◌, leb_ℤ,
}
use trandingnok.Float.{Float64, ◌⊕◌, ◌⊗◌, ◌≼◌, nought}
use trandingnok.Quant.Data.{Bar, last_bar}
use trandingnok.Quant.Crucible.{CrucibleWindow, default_warmup_days, build_crucible_windows}
use trandingnok.Quant.Crucible.Windows.{InRange, Covers, days_before, build_crucible_windows-Covers}
use trandingnok.Quant.Ghost.{simulate_ghost_dca}
use trandingnok.Quant.Genome.{Chromosome}
use trandingnok.Strategy.Types.{Strategy}
use trandingnok.Backtest.Run.{Metrics}
use trandingnok.Quant.Ghost.{GhostDcaResult}
use trandingnok.Quant.Crucible.{CrucibleResult}
use trandingnok.Ga.Evolvable.{
  run_window, evaluate_windows, evaluate, result_of, slice_score, fatal_score, max_dd_fatal,
}
use trandingnok.Ga.Plan.{KLine, EpochConfig, klines_to_bars, bars_from, baseline_of, build_plan}

later : (t : ℤ) (days : ℕ) (c : ℤ) → leb_ℤ (days_before t days) c ≡ false → leb_ℤ t c ≡ false
unfolding ◌-ℤ◌
later t days c h = ground arith

module _ {R : Type 0} where
  -- Leaving out bars before a time does not change the bars from that time on.
  bars_from-drop :
      (n : ℕ) (bars : List (Bar R)) (t : ℤ)
      → All (λ c. leb_ℤ t c.open_time ≡ false) (take n bars)
      → bars_from (drop n bars) t ≡ bars_from bars t
  unfolding bars_from
  bars_from-drop zero bars t h = refl
  bars_from-drop (suc n) [] t h = refl
  bars_from-drop (suc n) (b ∷ bars) t (p, h) = rw (p, bars_from) (bars_from-drop n bars t h)

  window-bars_from :
      (b : Bar R) (bars : List (Bar R)) (days : ℕ) (w : CrucibleWindow R)
      → Covers b bars days w
      → bars_from w.bars w.eval_start_ms ≡ bars_from (b ∷ bars) w.eval_start_ms
  window-bars_from b bars days w c = rw c.suffix (
      bars_from-drop c.skipped (b ∷ bars) w.eval_start_ms (
        All-mono (take c.skipped (b ∷ bars)) (λ d h. later w.eval_start_ms days d.open_time h)
          c.warm))

map-agree {ℓ κ} :
    {A : Type ℓ} {B : Type κ} (g h : A → B) (xs : List A)
    → All (λ x. g x ≡ h x) xs
    → map g xs ≡ map h xs
map-agree g h [] e = refl
map-agree g h (x ∷ xs) (e, es) = rw e (ap (◌∷◌ (h x)) (map-agree g h xs es))

module _ {R : Type 0} ⦃f : Float64 R⦄ where
  -- On a plan that is built from candles, whose times are below 2 ^ 62 in size and whose last is
  -- not before the first, each baseline is the passive strategy over all candles from the start of
  -- its window's evaluation: the warm-up that a window keeps is not part of it.
  pub build_plan-baselines :
      (name : String) (cfg : EpochConfig R) (b : Bar R) (bars : List (Bar R))
      (klines : List (KLine R))
      → klines_to_bars klines ≡ b ∷ bars
      → InRange b.open_time
      → InRange (last_bar b bars).open_time
      → b.open_time ≤ℤ (last_bar b bars).open_time
      → let plan = build_plan name cfg klines in
        plan.dca_baselines
        ≡ map
            (λ w.
              simulate_ghost_dca
                (record {
                  initial_capital = cfg.spawn_point.initial_capital;
                  monthly_inject = cfg.spawn_point.monthly_inject;
                })
                (bars_from (b ∷ bars) w.eval_start_ms))
            plan.windows
  unfolding build_plan baseline_of
  build_plan-baselines name cfg b bars klines e lo hi le =
      let (_, _, covers) =
        build_crucible_windows-Covers b bars default_warmup_days lo hi le (omega arith) in
      rw e (
        map-agree _ _ (build_crucible_windows (b ∷ bars) default_warmup_days) (
          All-mono (build_crucible_windows (b ∷ bars) default_warmup_days)
            (λ w c. ap (simulate_ghost_dca _) (window-bars_from b bars default_warmup_days w c))
            covers))

  evaluate_windows_total :
      (run : CrucibleWindow R → Metrics R) (base : CrucibleWindow R → GhostDcaResult R)
      (cancelled : ℕ → Bool) (score : R) (results : List (CrucibleResult R))
      (ws : List (CrucibleWindow R))
      → (r : R × List (CrucibleResult R)) × (evaluate_windows run cancelled score results ws
            (map base ws)
          ≡ some r)
        × (length r.1 ≤ length results + length ws)
  unfolding evaluate_windows
  evaluate_windows_total run base cancelled score results [] = ((score, results), refl, omega arith)
  evaluate_windows_total run base cancelled score results (w ∷ ws) =
      let m = run w in
      let slice = slice_score m (base w) in
      let fatal = result_of w m (base w) fatal_score in
      let more = results ++ (result_of w m (base w) slice ∷ []) in
      let (r, e, few) =
        evaluate_windows_total run base cancelled (score ⊕ w.weight ⊗ slice) more ws in
      let longer = length-append results (result_of w m (base w) slice ∷ []) in
      elim (Bool-cases (cancelled (length ws))) [
        | inl stop ↦ ((fatal_score, results), rw stop refl, omega arith)
        | inr on ↦ elim (Bool-cases (max_dd_fatal ≼ m.max_drawdown)) [
          | inl deep ↦ (
            (fatal_score, results ++ (fatal ∷ [])),
            rw (on, deep) refl,
            omega (arith, length-append results (fatal ∷ [])),
          )
          | inr fine ↦ (r, rw (on, fine) e, omega arith)
        ]
      ]

  -- On a plan that is built from candles, Evaluate always returns, whenever the context is
  -- cancelled, and never looks for a baseline that is missing; it has at most one result a window.
  pub evaluate-build_plan :
      (strat : Strategy R) (cancelled : ℕ → Bool) (c : Chromosome R) (name : String)
      (cfg : EpochConfig R) (klines : List (KLine R))
      → let plan = build_plan name cfg klines in
        (r : R × List (CrucibleResult R)) × (evaluate strat cancelled c plan ≡ some r)
        × (length r.1 ≤ length plan.windows)
  unfolding evaluate build_plan
  evaluate-build_plan strat cancelled c name cfg klines =
      let plan = build_plan name cfg klines in
      let (r, e, few) =
        evaluate_windows_total (run_window strat c plan) (baseline_of cfg.spawn_point) cancelled
          nought [] plan.windows in
      (r, e, omega arith)
