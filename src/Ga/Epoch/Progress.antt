-- ===== src/Ga/Epoch/Progress.antt =====
-- internal/saas/ga/engine.go: an epoch ends, with the fittest of its last population first.
use trandingnok.Base.{
  ℕ, zero, suc, ◌+◌, ◌≤◌, ◌≡◌, refl, ◌∙◌, inl, inr, Bool, true, some, List, [], ◌++◌, map, arith,
  String, ◌==◌, Bool-cases, length, take, All, length-map, length-append, All-mono,
}
use trandingnok.Float.{IsOrdered, IsNumber, Float64, ◌≼◌}
use trandingnok.Ga.Random.{Rand, IsRand}
use trandingnok.Ga.Engine.{
  EvolvableStrategy, Individual, Hyper, ◌>>=◌, build_individuals, evaluate_population,
  sort_by_fitness, best_fitness, init_population,
}
use trandingnok.Ga.Engine.Selection.{length-take, next_population_total}
use trandingnok.Ga.Engine.Initial.{init_population-size}
use trandingnok.Ga.Engine.Ranking.{
  IsScored, Fitnesses, build_individuals-IsScored, length-build_individuals, sort_by_fitness-All,
  sort_by_fitness-top, length-sort_by_fitness,
}
use trandingnok.Ga.Epoch.{
  Evolution, rank, count_patience, ramp, is_stuck, breed_generation, evolve, run_epoch,
}

module _ {Gene G R : Type 0} ⦃f : Float64 R⦄ (ev : EvolvableStrategy Gene G R) (ord : IsOrdered R)
    (number : (gen : ℕ) (g : Gene) → IsNumber (ev.score gen g)) where
  -- A population of a size, scored in one of the generations, with a fittest individual first.
  pub record Ranked (size : ℕ) (inds : List (Individual Gene R)) : Type 0 where
    pub sized : length inds ≡ size
    pub gen : ℕ
    pub scored : All (IsScored ev.fingerprint (ev.score gen)) inds
    pub best : All (λ i. (i.fitness ≼ best_fitness inds) ≡ true) inds

  IsScored-IsNumber :
      (gen : ℕ) (inds : List (Individual Gene R))
      → All (IsScored ev.fingerprint (ev.score gen)) inds
      → Fitnesses IsNumber inds
  IsScored-IsNumber gen inds h = All-mono inds (λ i (g, _, e). rw (← e) (number gen g)) h

  -- The individuals of a generation: as many as genes, scored, the best first.
  rank-Ranked : (gen : ℕ) (pop : List Gene) → Ranked (length pop) (rank ev gen pop)
  unfolding rank
  rank-Ranked gen pop =
      let inds = build_individuals pop (evaluate_population ev.fingerprint (ev.score gen) [] pop) in
      let scored = build_individuals-IsScored ev.fingerprint (ev.score gen) pop in
      record {
        sized =
            length-sort_by_fitness inds
            ∙ length-build_individuals ev.fingerprint (ev.score gen) pop;
        gen = gen;
        scored = sort_by_fitness-All (IsScored ev.fingerprint (ev.score gen)) inds scored;
        best =
            sort_by_fitness-All (λ i. (i.fitness ≼ best_fitness (sort_by_fitness inds)) ≡ true) inds
              (sort_by_fitness-top ord inds (IsScored-IsNumber gen inds scored));
      }

  module _ (hyper : Hyper R) (rnd : Rand G R) (fair : IsRand rnd) (cancelled : ℕ → Bool)
      (pop_size max_gen : ℕ) (some_ : 1 ≤ pop_size) where
    breed_generation_lem :
        (gen : ℕ) (e : Evolution Gene G R)
        → Ranked pop_size e.inds
        → (r : Evolution Gene G R) × (breed_generation ev hyper rnd cancelled pop_size max_gen gen e
            ≡ some r)
          × Ranked pop_size r.inds
          × (r.gen_done ≡ gen + 1)
    unfolding breed_generation
    breed_generation_lem gen e ranked =
        let elite = map (λ i. i.gene) (take hyper.elite_count e.inds) in
        let (children, g, made, len, _) =
          next_population_total rnd fair ev hyper pop_size e.inds e.mut_prob e.mut_scale e.rng
            (omega (arith, ranked.sized)) in
        let pop = elite ++ children in
        let (_, few) = length-take hyper.elite_count e.inds in
        let full : length pop ≡ pop_size = omega (
          arith,
          len,
          few,
          ranked.sized,
          length-append elite children,
          length-map (take hyper.elite_count e.inds) (λ i. i.gene),
        ) in
        (
          record e { inds = rank ev (gen + 1) pop; gen_done = gen + 1; rng = g },
          rw (made, ◌>>=◌) refl,
          rw full at (rank-Ranked (gen + 1) pop),
          refl,
        )

    count-inds :
        (e : Evolution Gene G R)
        → let e' = ramp hyper (count_patience hyper e) in
          (e'.inds ≡ e.inds) × (e'.gen_done ≡ e.gen_done)
    unfolding ramp count_patience
    count-inds e = ground arith

    count-Ranked :
        (e : Evolution Gene G R)
        → Ranked pop_size e.inds
        → Ranked pop_size (ramp hyper (count_patience hyper e)).inds
    count-Ranked e ranked = let (same, _) = count-inds e in rw same ranked

    evolve_lem :
        (left gen : ℕ) (e : Evolution Gene G R)
        → Ranked pop_size e.inds
        → left + gen ≡ max_gen
        → e.gen_done ≤ gen
        → (r : Evolution Gene G R) × (evolve ev hyper rnd cancelled pop_size max_gen left gen e
            ≡ some r)
          × Ranked pop_size r.inds
          × (r.gen_done ≤ max_gen)
    unfolding evolve
    evolve_lem zero gen e ranked total done = elim (Bool-cases (e.gen_done == 0)) [
      | inl unset ↦ (record e { gen_done = max_gen }, rw unset refl, ranked, omega arith)
      | inr set ↦ (e, rw set refl, ranked, omega arith)
    ]
    evolve_lem (suc left) gen e ranked total done =
        let e' = ramp hyper (count_patience hyper e) in
        let ranked' = count-Ranked e ranked in
        let (r, made, ranked_r, at) = breed_generation_lem gen e' ranked' in
        let (end, ran, ranked_end, few) =
          evolve_lem left (gen + 1) r ranked_r (omega arith) (omega arith) in
        elim (Bool-cases (cancelled gen)) [
          | inl stop ↦ (e, rw stop refl, ranked, omega arith)
          | inr on ↦ elim (Bool-cases (is_stuck hyper e')) [
            | inl stuck ↦
                (record e' { gen_done = gen + 1 }, rw (on, stuck) refl, ranked', omega arith)
            | inr free ↦ (end, rw (on, free, made, ◌>>=◌) ran, ranked_end, few)
          ]
        ]

    -- With scores that are numbers in every generation and draws within their range, an epoch of a
    -- positive population size ends, for every cancellation and all hyperparameters: it never draws
    -- out of range, it runs at most the generations asked, and it ends with a whole population, in
    -- which each fitness is a score that one and the same generation gave to a gene of the
    -- individual's fingerprint, and the first individual is at least as fit as every other.
    pub run_epoch-Ranked :
        (elites : List String) (g : G)
        → (r : Evolution Gene G R) × (run_epoch ev hyper rnd cancelled pop_size max_gen elites g
            ≡ some r)
          × (r.gen_done ≤ max_gen)
          × Ranked pop_size r.inds
    unfolding run_epoch
    run_epoch-Ranked elites g =
        let (pop, g1) = init_population ev elites pop_size g in
        let (size, _) = init_population-size ev elites pop_size g some_ in
        let (r, ran, ranked, few) =
          evolve_lem max_gen 0 _ (rw size at (rank-Ranked 0 pop)) (omega arith) (omega arith) in
        (r, ran, few, ranked)
