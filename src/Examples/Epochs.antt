-- ===== src/Examples/Epochs.antt =====
-- Runs of an epoch with the verbs of the strategy itself.
use trandingnok.Base.{
  ℕ, ◌+◌, ◌*◌, ◌%◌, ◌≤◌, ◌≡◌, refl, Bool, true, false, none, some, [], ◌∷◌, arith, ltb,
  if◌then◌else◌, ◌*ℤ◌, ◌-ℤ◌, ◌+ℤ◌, quot_ℤ, pos, pos_part,
}
use trandingnok.Float.Fixed.{Fixed, Fixed-IsOrdered, fixed_float, mul_fixed}
use trandingnok.Float.{IsNumber, lit}
use trandingnok.Examples.Sample.{dec, spawn}
use trandingnok.Examples.Genes.{codec}
use trandingnok.Quant.Genome.{Chromosome}
use trandingnok.Quant.Crucible.{CrucibleWindow}
use trandingnok.Quant.Ghost.{GhostDcaResult}
use trandingnok.Strategy.SigmoidDca as SigmoidDca
use trandingnok.Backtest.Run.{run_backtest}
use trandingnok.Ga.Random.{Rand, IsRand}
use trandingnok.Ga.Engine.{EvolvableStrategy, Hyper, default_hyper}
use trandingnok.Ga.Evolvable.{
  EvaluablePlan, fatal_score, evaluate, evaluate_windows, run_window, decode_elite, sample, mutate,
  crossover,
}
use trandingnok.Ga.Epoch.{Evolution, run_epoch}
use trandingnok.Ga.Epoch.Progress.{Ranked, run_epoch-Ranked}
use trandingnok.Saas.Lab.Challenger.{EpochTask}

-- A generator that counts.
abbrev counter : Rand ℕ Fixed
counter = record {
  float64 = λ g. (lit (g % 10) 1, g + 1);
  norm_float64 = λ g. (lit (g % 10) 1, g + 1);
  intn = λ n g. (if ltb g n then g else 0, g + 1);
}

counter-IsRand : IsRand counter
counter-IsRand = record { intn-lt = λ n g h. ground arith }

abbrev window : CrucibleWindow Fixed
window = record { label = "full"; weight = dec 1; bars = []; eval_start_ms = pos 0 }

abbrev still : GhostDcaResult Fixed
still = record { final_equity = dec 0; roi = dec 0; max_drawdown = dec 0; total_injected = dec 0 }

abbrev plan : EvaluablePlan Fixed
plan = record {
  pair = "BTC/USDT";
  template_name = "sigmoid_dca";
  spawn = spawn;
  lot_step = lit 1 3;
  lot_min = lit 1 3;
  windows = window ∷ [];
  dca_baselines = still ∷ [];
}

-- The context is cancelled while the second generation after the first is evaluated.
abbrev cancelled : ℕ → Bool
cancelled gen = ltb 1 gen

abbrev scaled : Fixed → ℕ
scaled none = 0
scaled (some x) = pos_part x

abbrev score_of : Bool → Chromosome Fixed → Fixed
score_of done c = elim (evaluate SigmoidDca.step (λ left. done) c plan) [
  | none ↦ fatal_score
  | some r ↦ r.0
]

score_of-IsNumber : (done : Bool) (c : Chromosome Fixed) → IsNumber (score_of done c)
unfolding evaluate evaluate_windows run_window run_backtest mul_fixed ◌*ℤ◌ ◌-ℤ◌ ◌+ℤ◌ quot_ℤ
score_of-IsNumber true c = refl
score_of-IsNumber false c = refl

-- The verbs of the strategy on the plan.
abbrev sigmoid_dca : EvolvableStrategy (Chromosome Fixed) ℕ Fixed
sigmoid_dca = record {
  sample = sample counter;
  mutate = mutate counter;
  crossover = crossover counter;
  fingerprint = λ c.
      scaled c.dca_drop_pct
      + 100000 * scaled c.sigmoid_sensitivity
      + 10000000000 * scaled c.stop_loss_threshold;
  score = λ gen c. score_of (cancelled gen) c;
  decode_elite = decode_elite codec;
}

sigmoid_dca-number : (gen : ℕ) (c : Chromosome Fixed) → IsNumber (sigmoid_dca.score gen c)
sigmoid_dca-number gen c = score_of-IsNumber (cancelled gen) c

abbrev hyper : Hyper Fixed
hyper = default_hyper

run_epoch-Ranked_example :
    (r : Evolution (Chromosome Fixed) ℕ Fixed) × (run_epoch sigmoid_dca hyper counter cancelled 10 3
        ("pack" ∷ [])
        0
      ≡ some r)
    × (r.gen_done ≤ 3)
    × Ranked sigmoid_dca Fixed-IsOrdered sigmoid_dca-number 10 r.inds
run_epoch-Ranked_example =
    run_epoch-Ranked sigmoid_dca Fixed-IsOrdered sigmoid_dca-number hyper counter counter-IsRand
      cancelled 10 3 (omega arith) ("pack" ∷ []) 0

abbrev goal : EpochTask Fixed
goal = record { strategy_id = 1; task_id = 9; spawn = spawn; now_ms = pos 8 }
