-- ===== src/Ga/Epoch.antt =====
-- internal/saas/ga/engine.go: RunEpoch.
pub mod Progress
use trandingnok.Base.{
  ℕ, zero, suc, ◌+◌, Bool, ◌&&◌, Option, some, List, [], String, leb, ◌==◌, if◌then◌else◌,
}
use trandingnok.Float.{Float64, ◌⊖◌, ◌⊗◌, ◌≺◌, ◌≼◌}
use trandingnok.Ga.Random.{Rand}
use trandingnok.Ga.Engine.{
  EvolvableStrategy, Individual, Hyper, ◌>>=◌, evaluate_population, build_individuals,
  sort_by_fitness, best_fitness, next_population, init_population,
}

-- The variables of the main loop. The first of the individuals is the best.
pub record Evolution (Gene G R : Type 0) : Type 0 where
  pub inds : List (Individual Gene R)
  pub best_ever : R
  pub patience_count : ℕ
  pub mut_prob : R
  pub mut_scale : R
  pub gen_done : ℕ
  pub rng : G

module _ {Gene G R : Type 0} ⦃f : Float64 R⦄ (hyper : Hyper R) where
  -- Convergence detection.
  unfoldable pub count_patience : Evolution Gene G R → Evolution Gene G R
  count_patience e =
      if (best_fitness e.inds ⊖ e.best_ever) ≺ hyper.early_stop_min_delta
      then record e { patience_count = e.patience_count + 1 }
      else record e { best_ever = best_fitness e.inds; patience_count = 0 }

  -- The mutation ramp.
  unfoldable pub ramp : Evolution Gene G R → Evolution Gene G R
  ramp e =
      if leb hyper.early_stop_patience e.patience_count
      then record e {
        mut_prob = f.min (e.mut_prob ⊗ hyper.mutation_ramp_factor) hyper.mutation_probability_max;
        mut_scale = f.min (e.mut_scale ⊗ hyper.mutation_ramp_factor) hyper.mutation_scale_max;
      }
      else e

  -- Both ramps are at their maximum and there is still no improvement.
  abbrev pub is_stuck : Evolution Gene G R → Bool
  is_stuck e =
      leb hyper.early_stop_patience e.patience_count
      && (hyper.mutation_probability_max ≼ e.mut_prob)
      && (hyper.mutation_scale_max ≼ e.mut_scale)

module _ {Gene G R : Type 0} ⦃f : Float64 R⦄ (ev : EvolvableStrategy Gene G R) where
  -- Evaluate, zip and sort, in a generation.
  unfoldable pub rank : ℕ → List Gene → List (Individual Gene R)
  rank gen pop =
      sort_by_fitness
        (build_individuals pop (evaluate_population ev.fingerprint (ev.score gen) [] pop))

  module _ (hyper : Hyper R) (rnd : Rand G R) (cancelled : ℕ → Bool) (pop_size max_gen : ℕ) where
    -- One generation: the next population, evaluated and sorted.
    unfoldable pub breed_generation : ℕ → Evolution Gene G R → Option (Evolution Gene G R)
    breed_generation gen e = do
      (pop, g) ← next_population rnd ev hyper pop_size e.inds e.mut_prob e.mut_scale e.rng
      some (record e { inds = rank (gen + 1) pop; gen_done = gen + 1; rng = g })

    -- The main loop, with the generations that are left and the number of the next one.
    unfoldable pub evolve : ℕ → ℕ → Evolution Gene G R → Option (Evolution Gene G R)
    evolve zero gen e = some (if e.gen_done == 0 then record e { gen_done = max_gen } else e)
    evolve (suc left) gen e =
        let e' = ramp hyper (count_patience hyper e) in
        let go = breed_generation gen e' >>= evolve left (gen + 1) in
        if cancelled gen
        then some e
        else if is_stuck hyper e'
        then some (record e' { gen_done = gen + 1 })
        else go

    -- `RunEpoch` up to the end of the loop, from the param packs of the elites.
    unfoldable pub run_epoch : List String → G → Option (Evolution Gene G R)
    run_epoch elites g =
        let (pop, g1) = init_population ev elites pop_size g in
        let inds = rank 0 pop in
        evolve max_gen 0 (record {
          inds = inds;
          best_ever = best_fitness inds;
          patience_count = 0;
          mut_prob = hyper.mutation_probability;
          mut_scale = hyper.mutation_scale;
          gen_done = 0;
          rng = g1;
        })
