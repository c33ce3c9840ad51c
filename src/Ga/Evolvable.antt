-- ===== src/Ga/Evolvable.antt =====
-- internal/saas/ga/sigmoid_dca_evolvable.go: the verbs of the genetic algorithm on chromosomes.
pub mod Inherit
pub mod Score
pub mod Pack
use trandingnok.Base.{
  ℕ, ◌+◌, Bool, Option, none, some, List, [], ◌∷◌, ◌++◌, String, if◌then◌else◌, length,
}
use trandingnok.Float.{Float64, ◌⊕◌, ◌⊖◌, ◌⊗◌, ◌≺◌, ◌≼◌, lit, nought}
use trandingnok.Quant.Genome.{
  Chromosome, SpawnPoint, hard_bounds, Bounds, default_seed_chromosome, zero_spawn_point,
  clamp_chromosome,
}
use trandingnok.Quant.Crucible.{CrucibleWindow, CrucibleResult}
use trandingnok.Quant.Ghost.{GhostDcaResult}
use trandingnok.Strategy.Types.{Strategy}
use trandingnok.Backtest.Run.{Metrics, run_backtest}
use trandingnok.Ga.Random.{Rand}

-- `sdcaParamPack`.
pub record ParamPack (R : Type 0) : Type 0 where
  pub spawn_point : SpawnPoint R
  pub config : Chromosome R

-- `json.Marshal` and `json.Unmarshal` of a param pack; no pack stands for a parse error.
pub record Codec (R : Type 0) : Type 0 where
  pub marshal : ParamPack R → String
  pub unmarshal : String → Option (ParamPack R)

-- The pack in a blob; the empty string is the empty blob, which is not parsed.
unfoldable pub parse_pack : {R : Type 0} → Codec R → String → Option (ParamPack R)
parse_pack codec String.[] = none
parse_pack codec (String.◌∷◌ c s) = codec.unmarshal (String.◌∷◌ c s)

-- `EvaluablePlan`; the engine refuses a nil spawn point before it builds one.
pub record EvaluablePlan (R : Type 0) : Type 0 where
  pub pair : String
  pub template_name : String
  pub spawn : SpawnPoint R
  pub lot_step : R
  pub lot_min : R
  pub windows : List (CrucibleWindow R)
  pub dca_baselines : List (GhostDcaResult R)

module _ {R : Type 0} ⦃f : Float64 R⦄ where
  abbrev pub fatal_score : R
  fatal_score = f.neg (lit 99999 0)

  abbrev pub max_dd_fatal : R
  max_dd_fatal = lit 88 2

  abbrev pub taker_fee : R
  taker_fee = lit 1 3

  -- `geneSteps`.
  abbrev pub gene_steps : Chromosome R
  gene_steps = record {
    dca_drop_pct = lit 1 2;
    sigmoid_sensitivity = lit 50 2;
    stop_loss_threshold = lit 1 2;
  }

  -- The score of a window that is not fatal.
  abbrev pub slice_score : Metrics R → GhostDcaResult R → R
  slice_score m baseline =
      m.roi ⊖ baseline.roi ⊖ lit 15 1 ⊗ f.max (lit 0 0) (m.max_drawdown ⊖ baseline.max_drawdown)

  abbrev pub result_of : CrucibleWindow R → Metrics R → GhostDcaResult R → R → CrucibleResult R
  result_of w m baseline score = record {
    window = w.label;
    score = score;
    roi = m.roi;
    max_dd = m.max_drawdown;
    alpha = m.roi ⊖ baseline.roi;
  }

  -- The backtest of a chromosome on one window.
  unfoldable pub run_window :
      Strategy R → Chromosome R → EvaluablePlan R → CrucibleWindow R → Metrics R
  run_window strat c plan w =
      run_backtest
        (record {
          bars = w.bars;
          eval_start_ms = w.eval_start_ms;
          chromosome = c;
          spawn_point = plan.spawn;
          fees = record { lot_step = plan.lot_step; lot_min = plan.lot_min; taker_fee = taker_fee };
        })
        strat

  -- The loop of `Evaluate` over the windows and their baselines. `cancelled` tells whether the
  -- context is done before each window that is left; a missing baseline is a panic, `none`.
  unfoldable pub evaluate_windows :
      (CrucibleWindow R → Metrics R)
      → (ℕ → Bool)
      → R
      → List (CrucibleResult R)
      → List (CrucibleWindow R)
      → List (GhostDcaResult R)
      → Option (R × List (CrucibleResult R))
  evaluate_windows run cancelled score results [] baselines = some (score, results)
  evaluate_windows run cancelled score results (w ∷ ws) [] =
      if cancelled (length ws) then some (fatal_score, results) else none
  evaluate_windows run cancelled score results (w ∷ ws) (baseline ∷ baselines) =
      let m = run w in
      let slice = slice_score m baseline in
      let rest =
        evaluate_windows run cancelled (score ⊕ w.weight ⊗ slice)
          (results ++ (result_of w m baseline slice ∷ [])) ws baselines in
      if cancelled (length ws)
      then some (fatal_score, results)
      else if max_dd_fatal ≼ m.max_drawdown
      then some (fatal_score, results ++ (result_of w m baseline fatal_score ∷ []))
      else rest

  -- `Evaluate`.
  unfoldable pub evaluate :
      Strategy R
      → (ℕ → Bool)
      → Chromosome R
      → EvaluablePlan R
      → Option (R × List (CrucibleResult R))
  evaluate strat cancelled c plan =
      evaluate_windows (run_window strat c plan) cancelled nought [] plan.windows plan.dca_baselines

  -- `DecodeElite`.
  unfoldable pub decode_elite : Codec R → String → Chromosome R
  decode_elite codec raw = elim (parse_pack codec raw) [
    | none ↦ default_seed_chromosome
    | some pp ↦ clamp_chromosome pp.config
  ]

  -- `EncodeResult`; a nil spawn point is left at its zero value.
  unfoldable pub encode_result : Codec R → Chromosome R → Option (SpawnPoint R) → String
  encode_result codec c spawn =
      codec.marshal
        (record { spawn_point = elim spawn [ none ↦ zero_spawn_point | some sp ↦ sp ]; config = c })

  -- `DecodeSpawnFromParamPack`.
  unfoldable pub decode_spawn_from_param_pack : Codec R → String → SpawnPoint R
  decode_spawn_from_param_pack codec raw = elim (codec.unmarshal raw) [
    | none ↦ zero_spawn_point
    | some pp ↦ pp.spawn_point
  ]

module _ {R G : Type 0} ⦃f : Float64 R⦄ (rnd : Rand G R) where
  -- A uniform draw between two bounds.
  unfoldable pub uniform : R → R → G → R × G
  uniform lo hi g = let (u, g') = rnd.float64 g in (lo ⊕ u ⊗ (hi ⊖ lo), g')

  -- `Sample`.
  unfoldable pub sample : G → Chromosome R × G
  sample g =
      let b : Bounds R = hard_bounds in
      let (drop_pct, g1) = uniform b.dca_drop_pct_min b.dca_drop_pct_max g in
      let (sensitivity, g2) = uniform b.sigmoid_sensitivity_min b.sigmoid_sensitivity_max g1 in
      let (threshold, g3) = uniform b.stop_loss_threshold_min b.stop_loss_threshold_max g2 in
      (
        clamp_chromosome (record {
          dca_drop_pct = drop_pct;
          sigmoid_sensitivity = sensitivity;
          stop_loss_threshold = threshold;
        }),
        g3,
      )

  -- A field's mutation: with probability `prob`, Gaussian noise of its step size.
  unfoldable pub mutate_field : R → R → R → R → G → R × G
  mutate_field prob scale step x g =
      let (u, g1) = rnd.float64 g in
      if u ≺ prob
      then (let (n, g2) = rnd.norm_float64 g1 in (x ⊕ n ⊗ step ⊗ scale, g2))
      else (x, g1)

  -- `Mutate`.
  unfoldable pub mutate : Chromosome R → R → R → G → Chromosome R × G
  mutate c prob scale g =
      let s : Chromosome R = gene_steps in
      let (drop_pct, g1) = mutate_field prob scale s.dca_drop_pct c.dca_drop_pct g in
      let (sensitivity, g2) =
        mutate_field prob scale s.sigmoid_sensitivity c.sigmoid_sensitivity g1 in
      let (threshold, g3) =
        mutate_field prob scale s.stop_loss_threshold c.stop_loss_threshold g2 in
      (
        clamp_chromosome (record {
          dca_drop_pct = drop_pct;
          sigmoid_sensitivity = sensitivity;
          stop_loss_threshold = threshold;
        }),
        g3,
      )

  -- A field of a child: the second parent's with probability one half.
  unfoldable pub choose_field : R → R → G → R × G
  choose_field x y g = let (u, g1) = rnd.float64 g in (if u ≺ lit 5 1 then y else x, g1)

  -- `Crossover`.
  unfoldable pub crossover : Chromosome R → Chromosome R → G → Chromosome R × G
  crossover p1 p2 g =
      let (drop_pct, g1) = choose_field p1.dca_drop_pct p2.dca_drop_pct g in
      let (sensitivity, g2) = choose_field p1.sigmoid_sensitivity p2.sigmoid_sensitivity g1 in
      let (threshold, g3) = choose_field p1.stop_loss_threshold p2.stop_loss_threshold g2 in
      (
        clamp_chromosome (record {
          dca_drop_pct = drop_pct;
          sigmoid_sensitivity = sensitivity;
          stop_loss_threshold = threshold;
        }),
        g3,
      )
