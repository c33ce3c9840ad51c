-- ===== src/Ga/Evolvable/Score.antt =====
-- internal/saas/ga/sigmoid_dca_evolvable.go: what Evaluate computes over the crucible windows.
use trandingnok.Base.{◌≡◌, refl, sym, ap, ◌∙◌, true, false, some, List, [], ◌∷◌, ◌++◌, map, All}
use trandingnok.Float.{Float64, ◌⊕◌, ◌⊗◌, ◌≼◌, nought}
use mathlib.Core.List.{append-nil, append_assoc}
use trandingnok.Quant.Genome.{Chromosome}
use trandingnok.Quant.Crucible.{CrucibleWindow, CrucibleResult}
use trandingnok.Quant.Ghost.{GhostDcaResult}
use trandingnok.Strategy.Types.{Strategy}
use trandingnok.Backtest.Run.{Metrics}
use trandingnok.Ga.Evolvable.{
  EvaluablePlan, fatal_score, max_dd_fatal, slice_score, result_of, run_window, evaluate_windows,
  evaluate,
}

-- A window with its baseline.
abbrev pub Paired : Type 0 → Type 0
Paired R = CrucibleWindow R × GhostDcaResult R

module _ {R : Type 0} ⦃f : Float64 R⦄ where
  -- A plan whose baselines are aligned with its windows, as the epoch service builds it.
  abbrev pub aligned : EvaluablePlan R → List (Paired R) → EvaluablePlan R
  aligned plan ps = record plan { windows = map (λ p. p.0) ps; dca_baselines = map (λ p. p.1) ps }

  module _ (run : CrucibleWindow R → Metrics R) where
    -- The drawdown of the backtest stays below the fatal one.
    abbrev pub Survives : Paired R → Type 0
    Survives p = (max_dd_fatal {R = R} ≼ (run p.0).max_drawdown) ≡ false

    -- The weighted sum of the slices, from the first window on.
    abbrev pub weighted_from : R → List (Paired R) → R
    weighted_from s [] = s
    weighted_from s ((w, b) ∷ ps) = weighted_from (s ⊕ w.weight ⊗ slice_score (run w) b) ps

    abbrev pub slice_result : Paired R → CrucibleResult R
    slice_result (w, b) = result_of w (run w) b (slice_score (run w) b)

    windows_survive :
        (s : R) (results : List (CrucibleResult R)) (ps : List (Paired R))
        → All Survives ps
        → evaluate_windows run (λ n. false) s results (map (λ p. p.0) ps) (map (λ p. p.1) ps)
          ≡ some (weighted_from s ps, results ++ map slice_result ps)
    unfolding evaluate_windows
    windows_survive s results [] h = ap (λ l. some (s, l)) (sym (append-nil results))
    windows_survive s results ((w, b) ∷ ps) (p, h) =
        let m = run w in
        let slice = slice_score m b in
        rw p (
          windows_survive (s ⊕ w.weight ⊗ slice) (results ++ (slice_result (w, b) ∷ [])) ps h
          ∙ ap (λ l. some (weighted_from (s ⊕ w.weight ⊗ slice) ps, l)) (append_assoc results _ _))

    windows_fatal :
        (s : R) (results : List (CrucibleResult R)) (ps qs : List (Paired R)) (w : CrucibleWindow R)
        (b : GhostDcaResult R)
        → All Survives ps
        → (max_dd_fatal {R = R} ≼ (run w).max_drawdown) ≡ true
        → evaluate_windows run
            (λ n. false)
            s
            results
            (map (λ p. p.0) (ps ++ ((w, b) ∷ qs)))
            (map (λ p. p.1) (ps ++ ((w, b) ∷ qs)))
          ≡ some (
            fatal_score,
            results ++ (map slice_result ps ++ (result_of w (run w) b fatal_score ∷ [])),
          )
    unfolding evaluate_windows
    windows_fatal s results [] qs w b h fatal = rw fatal refl
    windows_fatal s results ((v, a) ∷ ps) qs w b (p, h) fatal =
        let slice = slice_score (run v) a in
        rw p (
          windows_fatal (s ⊕ v.weight ⊗ slice) (results ++ (slice_result (v, a) ∷ [])) ps qs w b h
            fatal
          ∙ ap (λ l. some (fatal_score, l)) (append_assoc results _ _))

  module _ (strat : Strategy R) (c : Chromosome R) where
    -- With the context alive and every window's backtest below the fatal drawdown, Evaluate returns
    -- the sum of the weighted slices, in the order of the windows, and one result for each window;
    -- once windows that survive are followed by one that does not, it returns the fatal score at
    -- once, with the results up to that window, and the windows after it do not count.
    pub evaluate-verdict :
        (plan : EvaluablePlan R) (ps qs : List (Paired R)) (w : CrucibleWindow R)
        (b : GhostDcaResult R)
        → let run = run_window strat c plan in
          All (Survives run) ps
          → (evaluate strat (λ n. false) c (aligned plan ps)
              ≡ some (weighted_from run nought ps, map (slice_result run) ps))
            × ((max_dd_fatal {R = R} ≼ (run w).max_drawdown) ≡ true
                → evaluate strat (λ n. false) c (aligned plan (ps ++ ((w, b) ∷ qs)))
                  ≡ some (
                    fatal_score,
                    map (slice_result run) ps ++ (result_of w (run w) b fatal_score ∷ []),
                  ))
    unfolding evaluate run_window
    evaluate-verdict plan ps qs w b h =
        let run = run_window strat c plan in
        (windows_survive run nought [] ps h, λ fatal. windows_fatal run nought [] ps qs w b h fatal)
