-- ===== src/Saas/Lab/Challenger.antt =====
-- internal/saas/ga/engine.go: RunEpoch around its loop, with the record that it stores.
pub mod Reigns
pub mod Stored
use trandingnok.Base.{
  ℕ, ◌+◌, Bool, ◌||◌, Option, none, some, List, [], ◌∷◌, ◌++◌, String, ltb, if◌then◌else◌, ℤ, pos,
  leb_ℤ, pos_part,
}
use text.Mathlib.Text.{◌==◌ as str_eq}
use trandingnok.Float.{Float64, ◌≺◌, nought}
use trandingnok.Quant.Genome.{Chromosome, SpawnPoint}
use trandingnok.Quant.Crucible.{CrucibleResult}
use trandingnok.Ga.Random.{Rand}
use trandingnok.Ga.Engine.{
  EvolvableStrategy, Individual, Hyper, default_pop_size, default_max_generations, ◌>>=◌,
}
use trandingnok.Ga.Epoch.{Evolution, run_epoch}
use trandingnok.Ga.Evolvable.{Codec, EvaluablePlan, encode_result}
use trandingnok.Saas.Lab.{challenger, GeneRecord}
use trandingnok.Saas.Lab.Service.{EpochResult}

-- The settings of an epoch that its record needs, with the time at which it is stored.
pub record EpochTask (R : Type 0) : Type 0 where
  pub strategy_id : ℕ
  pub task_id : ℕ
  pub spawn : SpawnPoint R
  pub now_ms : ℤ

-- A size that is not positive is replaced by the engine's.
abbrev pub sized : ℤ → ℕ → ℕ
sized n d = if leb_ℤ n (pos 0) then d else pos_part n

module _ {R : Type 0} where
  -- A primary key that no record has.
  unfoldable pub next_gene_id : List (GeneRecord R) → ℕ
  next_gene_id [] = 1
  next_gene_id (g ∷ gs) = let n = next_gene_id gs in if ltb g.id n then n else g.id + 1

  -- An assignment to an entry of a map of scores.
  unfoldable pub set_score : String → R → List (String × R) → List (String × R)
  set_score k x [] = (k, x) ∷ []
  set_score k x ((j, y) ∷ m) = if str_eq j k then (k, x) ∷ m else (j, y) ∷ set_score k x m

  -- `windowResultsToMap`.
  unfoldable pub scores_of : List (CrucibleResult R) → List (String × R) → List (String × R)
  scores_of [] m = m
  scores_of (r ∷ rs) m = scores_of rs (set_score r.window r.score m)

  abbrev pub window_results_to_map : List (CrucibleResult R) → List (String × R)
  window_results_to_map rs = scores_of rs []

module _ {R : Type 0} ⦃f : Float64 R⦄ where
  -- The greatest drawdown of the windows, from one that is known.
  unfoldable pub worst_drawdown : R → List (CrucibleResult R) → R
  worst_drawdown worst [] = worst
  worst_drawdown worst (r ∷ rs) = worst_drawdown (if worst ≺ r.max_dd then r.max_dd else worst) rs

  module _ (codec : Codec R) (marshal_scores : List (String × R) → String) where
    abbrev pub record_of :
        EpochTask R → ℕ → Individual (Chromosome R) R → List (CrucibleResult R) → GeneRecord R
    record_of task id best results = record {
      id = id;
      created_at = task.now_ms;
      strategy_id = task.strategy_id;
      task_id = task.task_id;
      role = challenger;
      param_pack = encode_result codec best.gene (some task.spawn);
      score_total = best.fitness;
      max_drawdown = worst_drawdown nought results;
      window_scores = marshal_scores (window_results_to_map results);
    }

    -- The end of `RunEpoch`: the record of the best individual is stored; an error is none.
    unfoldable pub write_challenger :
        Bool
        → EpochTask R
        → Individual (Chromosome R) R
        → List (CrucibleResult R)
        → ℕ
        → List (GeneRecord R)
        → List (GeneRecord R) × Option (EpochResult R)
    write_challenger create_fails task best results gen_done genes =
        let g = record_of task (next_gene_id genes) best results in
        if create_fails then (genes, none) else (
          genes ++ (g ∷ []),
          some (record { best_score = best.fitness; generations = gen_done; challenger_id = g.id }),
        )

    module _ {G : Type 0} (ev : EvolvableStrategy (Chromosome R) G R) (hyper : Hyper R) where
      -- What follows the loop; an empty population is a panic. The record is created with the
      -- context of the epoch, so that it is not stored where that is cancelled, which is asked for
      -- the number of generations that ran: the number of the check that ended the loop, if it was
      -- a check that found the context done.
      unfoldable pub conclude_epoch :
          (ℕ → Bool)
          → (Chromosome R → List (CrucibleResult R))
          → Bool
          → EpochTask R
          → List (GeneRecord R)
          → Evolution (Chromosome R) G R
          → Option (List (GeneRecord R) × Option (EpochResult R))
      conclude_epoch cancelled windows create_fails task genes e = elim (e.inds) [
        | [] ↦ none
        | best ∷ inds ↦ some (
            write_challenger (create_fails || cancelled e.gen_done) task best (windows best.gene)
              e.gen_done genes)
      ]

      -- `RunEpoch`, from the sizes asked, the plan (none for an error) and the second result of
      -- `Evaluate` at its end. A spawn point is given. `none` is a panic.
      unfoldable pub run_epoch_task :
          Rand G R
          → (ℕ → Bool)
          → ℤ
          → ℤ
          → Option (EvaluablePlan R)
          → (Chromosome R → List (CrucibleResult R))
          → Bool
          → EpochTask R
          → List String
          → G
          → List (GeneRecord R)
          → Option (List (GeneRecord R) × Option (EpochResult R))
      run_epoch_task rnd cancelled pop gens plan windows create_fails task elites g genes =
          let run =
            run_epoch ev hyper rnd cancelled (sized pop default_pop_size)
              (sized gens default_max_generations) elites g
            >>= conclude_epoch cancelled windows create_fails task genes in
          elim plan [
            | none ↦ some (genes, none)
            | some p ↦ elim (p.windows) [ [] ↦ some (genes, none) | w ∷ ws ↦ run ]
          ]
