-- ===== src/Examples/Genes.antt =====
-- Runs of the genes of the strategy: their crossover, their evaluation and their storage.
use trandingnok.Base.{◌≡◌, refl, true, false, some, [], ◌∷◌, ◌++◌, map, ◌-ℤ◌, pos}
use trandingnok.Float.Fixed.{Fixed, Fixed-IsOrdered, fixed_float}
use trandingnok.Float.{◌≼◌, lit, nought}
use trandingnok.Examples.Sample.{dec, bar_at, spawn}
use trandingnok.Quant.Genome.{Chromosome, default_seed_chromosome}
use trandingnok.Quant.Crucible.{CrucibleWindow}
use trandingnok.Quant.Ghost.{GhostDcaResult}
use trandingnok.Strategy.SigmoidDca.{step}
use trandingnok.Backtest.Run.{Config}
use trandingnok.Backtest.Run.Warmup.{run_backtest-warmup}
use trandingnok.Ga.Evolvable.{
  ParamPack, Codec, parse_pack, EvaluablePlan, fatal_score, max_dd_fatal, result_of, run_window,
  evaluate, decode_elite, encode_result, decode_spawn_from_param_pack,
}
use trandingnok.Ga.Evolvable.Score.{
  Paired, Survives, aligned, weighted_from, slice_result, evaluate-verdict,
}
use trandingnok.Ga.Evolvable.Pack.{decode_elite-encode_result}

abbrev pub seed : Chromosome Fixed
seed = default_seed_chromosome

abbrev pack : ParamPack Fixed
pack = record { spawn_point = spawn; config = seed }

abbrev window : CrucibleWindow Fixed
window = record {
  label = "6m";
  weight = lit 1 1;
  bars = bar_at 0 100 ∷ bar_at 1 110 ∷ [];
  eval_start_ms = pos 1800000000000;
}

abbrev flat : GhostDcaResult Fixed
flat = record { final_equity = dec 0; roi = dec 0; max_drawdown = dec 0; total_injected = dec 0 }

abbrev plan : EvaluablePlan Fixed
plan = record {
  pair = "BTC/USDT";
  template_name = "sigmoid_dca";
  spawn = spawn;
  lot_step = lit 1 3;
  lot_min = lit 1 3;
  windows = [];
  dca_baselines = [];
}

abbrev pairing : Paired Fixed
pairing = (window, flat)

-- The backtest never reaches the evaluation of this window, and its drawdown is 0.
window-Survives : Survives (run_window step seed plan) pairing
unfolding run_window
window-Survives =
    let cfg : Config Fixed = record {
      bars = window.bars;
      eval_start_ms = window.eval_start_ms;
      chromosome = seed;
      spawn_point = spawn;
      fees = record { lot_step = lit 1 3; lot_min = lit 1 3; taker_fee = lit 1 3 };
    } in
    rw (run_backtest-warmup cfg step (refl, (refl, tt))) refl

evaluate-verdict_example :
    let run = run_window step seed plan in
    (evaluate step (λ n. false) seed (aligned plan (pairing ∷ []))
      ≡ some (weighted_from run nought (pairing ∷ []), map (slice_result run) (pairing ∷ [])))
    × ((max_dd_fatal {R = Fixed} ≼ (run window).max_drawdown) ≡ true
        → evaluate step (λ n. false) seed (aligned plan (pairing ∷ pairing ∷ []))
          ≡ some (
            fatal_score,
            map (slice_result run) (pairing ∷ [])
                ++ (result_of window (run window) flat fatal_score ∷ []),
          ))
evaluate-verdict_example =
    evaluate-verdict step seed plan (pairing ∷ []) [] window flat (window-Survives, tt)

-- A codec of one pack.
abbrev pub codec : Codec Fixed
codec = record { marshal = λ pp. "pack"; unmarshal = λ raw. some pack }

decode_elite-encode_result_example :
    (decode_elite codec (encode_result codec seed (some spawn)) ≡ seed)
    × (decode_spawn_from_param_pack codec (encode_result codec seed (some spawn)) ≡ spawn)
unfolding ◌-ℤ◌ parse_pack
decode_elite-encode_result_example =
    decode_elite-encode_result Fixed-IsOrdered codec seed spawn
      (record { parsed = refl; nonempty = refl }) ((refl, refl), (refl, refl), (refl, refl))
