-- ===== src/Ga/Engine.antt =====
-- internal/saas/ga/engine.go: the parts of an evolution epoch. The engine knows genes only through
-- the verbs of `EvolvableStrategy`.
pub mod Selection
pub mod Initial
pub mod Ranking
use trandingnok.Base.{
  ℕ, zero, suc, ◌+◌, ◌-◌, ◌*◌, ◌/◌, ◌%◌, Option, none, some, List, [], ◌∷◌, ◌++◌, map, String, ltb,
  ◌==◌, if◌then◌else◌, length, get_elem?, get_or, take,
}
use trandingnok.Float.{Float64, ◌≺◌, lit, nought}
use Prim.Native.Nat
use trandingnok.Ga.Random.{Rand}

-- The verbs of internal/saas/ga/evolvable.go that the engine calls. `score` and `windows` are the
-- two results of `Evaluate`, with the plan and the context given; a cancelled context may change
-- them from one generation to the next, so the score takes the generation that asks for it.
pub record EvolvableStrategy (Gene G R : Type 0) : Type 0 where
  pub sample : G → Gene × G
  pub mutate : Gene → R → R → G → Gene × G
  pub crossover : Gene → Gene → G → Gene × G
  pub fingerprint : Gene → ℕ
  pub score : ℕ → Gene → R
  pub decode_elite : String → Gene

pub record Individual (Gene R : Type 0) : Type 0 where
  pub gene : Gene
  pub fitness : R

-- The hyperparameters of `EvolutionEngine`.
pub record Hyper (R : Type 0) : Type 0 where
  pub elite_count : ℕ
  pub mutation_probability : R
  pub mutation_scale : R
  pub mutation_probability_max : R
  pub mutation_scale_max : R
  pub mutation_ramp_factor : R
  pub early_stop_patience : ℕ
  pub early_stop_min_delta : R
  pub tournament_size : ℕ

module _ {R : Type 0} ⦃f : Float64 R⦄ where
  -- The defaults of `NewEvolutionEngine`.
  abbrev pub default_hyper : Hyper R
  default_hyper = record {
    elite_count = 8;
    mutation_probability = lit 15 2;
    mutation_scale = lit 10 1;
    mutation_probability_max = lit 55 2;
    mutation_scale_max = lit 30 1;
    mutation_ramp_factor = lit 125 2;
    early_stop_patience = 5;
    early_stop_min_delta = lit 1 3;
    tournament_size = 3;
  }

abbrev pub default_pop_size : ℕ
default_pop_size = 300

abbrev pub default_max_generations : ℕ
default_max_generations = 25

infixl 5 ◌>>=◌
abbrev pub ◌>>=◌ {ℓ κ} : {A : Type ℓ} {B : Type κ} → Option A → (A → Option B) → Option B
none >>= k = none
some a >>= k = k a

-- The score that a fingerprint has in the cache.
unfoldable pub cached : {R : Type 0} → ℕ → List (ℕ × R) → Option R
cached fp [] = none
cached fp ((k, s) ∷ cache) = if k == fp then some s else cached fp cache

-- `max(1, n)`.
abbrev at_least_one : ℕ → ℕ
at_least_one n = if n == 0 then 1 else n

module _ {Gene R : Type 0} where
  -- `evaluatePopulation`, by one worker: a gene whose fingerprint has a score is not evaluated.
  unfoldable pub evaluate_population : (Gene → ℕ) → (Gene → R) → List (ℕ × R) → List Gene → List R
  evaluate_population fingerprint score cache [] = []
  evaluate_population fingerprint score cache (g ∷ pop) =
      let fp = fingerprint g in
      let s = score g in
      let hit = λ (c : R). c ∷ evaluate_population fingerprint score cache pop in
      let miss = s ∷ evaluate_population fingerprint score ((fp, s) ∷ cache) pop in
      elim (cached fp cache) [ some c ↦ hit c | none ↦ miss ]

  -- `buildIndividuals`.
  unfoldable pub build_individuals : List Gene → List R → List (Individual Gene R)
  build_individuals (g ∷ pop) (s ∷ scores) =
      record { gene = g; fitness = s } ∷ build_individuals pop scores
  build_individuals _ _ = []

module _ {Gene R : Type 0} ⦃f : Float64 R⦄ where
  -- `sortByFitness`: descending; equal fitness keeps its order.
  unfoldable pub insert_by_fitness :
      Individual Gene R → List (Individual Gene R) → List (Individual Gene R)
  insert_by_fitness i [] = i ∷ []
  insert_by_fitness i (j ∷ inds) =
      if j.fitness ≺ i.fitness then i ∷ j ∷ inds else j ∷ insert_by_fitness i inds

  -- `inds[0].fitness`; the populations of the engine are never empty.
  abbrev pub best_fitness : List (Individual Gene R) → R
  best_fitness [] = nought
  best_fitness (i ∷ inds) = i.fitness

  unfoldable pub sort_by_fitness : List (Individual Gene R) → List (Individual Gene R)
  sort_by_fitness [] = []
  sort_by_fitness (i ∷ inds) = insert_by_fitness i (sort_by_fitness inds)

module _ {Gene G R : Type 0} ⦃f : Float64 R⦄ (rnd : Rand G R) where
  -- The rounds of `tournamentSelect` after the first draw. A draw out of range is a panic, `none`.
  unfoldable pub challenge :
      ℕ → List (Individual Gene R) → Individual Gene R → G → Option (Individual Gene R × G)
  challenge zero inds best g = some (best, g)
  challenge (suc n) inds best g =
      let (i, g1) = rnd.intn (length inds) g in
      do
        candidate ← get_elem? inds i
        challenge n inds (if best.fitness ≺ candidate.fitness then candidate else best) g1

  -- `tournamentSelect`.
  unfoldable pub tournament_select : List (Individual Gene R) → ℕ → G → Option (Gene × G)
  tournament_select inds size g =
      let (i, g1) = rnd.intn (length inds) g in
      do
        first ← get_elem? inds i
        (best, g2) ← challenge (size - 1) inds first g1
        some (best.gene, g2)

  -- `for len(nextPop) < popSize`: a number of children by tournaments, crossover and mutation.
  unfoldable pub breed :
      EvolvableStrategy Gene G R
      → ℕ
      → List (Individual Gene R)
      → ℕ
      → R
      → R
      → G
      → Option (List Gene × G)
  breed ev zero inds size prob scale g = some ([], g)
  breed ev (suc n) inds size prob scale g = do
    (p1, g1) ← tournament_select inds size g
    (p2, g2) ← tournament_select inds size g1
    let (child, g3) = ev.crossover p1 p2 g2
    let (child', g4) = ev.mutate child prob scale g3
    (rest, g5) ← breed ev n inds size prob scale g4
    some (child' ∷ rest, g5)

  -- The next population: the elite unchanged, then children up to the population size.
  unfoldable pub next_population :
      EvolvableStrategy Gene G R
      → Hyper R
      → ℕ
      → List (Individual Gene R)
      → R
      → R
      → G
      → Option (List Gene × G)
  next_population ev hyper pop_size inds prob scale g =
      let elite = map (λ i. i.gene) (take hyper.elite_count inds) in
      do
        (rest, g1) ← breed ev (pop_size - length elite) inds hyper.tournament_size prob scale g
        some (elite ++ rest, g1)

module _ {Gene G R : Type 0} where
  -- `for len(pop) < popSize`: random genes.
  unfoldable pub fill_random : EvolvableStrategy Gene G R → ℕ → G → List Gene × G
  fill_random ev zero g = ([], g)
  fill_random ev (suc n) g =
      let (x, g1) = ev.sample g in let (rest, g2) = fill_random ev n g1 in (x ∷ rest, g2)

  -- The elite copies: `count` of them from index i on, round and round.
  unfoldable pub elite_copies : EvolvableStrategy Gene G R → List String → ℕ → ℕ → List Gene
  elite_copies ev elites i zero = []
  elite_copies ev elites i (suc n) =
      ev.decode_elite (get_or elites (i % length elites) "") ∷ elite_copies ev elites (i + 1) n

module _ {Gene G R : Type 0} ⦃f : Float64 R⦄ where
  -- The mutated elite copies, with the fixed probability and scale of the initial population.
  unfoldable pub elite_mutants :
      EvolvableStrategy Gene G R → List String → ℕ → ℕ → G → List Gene × G
  elite_mutants ev elites i zero g = ([], g)
  elite_mutants ev elites i (suc n) g =
      let base = ev.decode_elite (get_or elites (i % length elites) "") in
      let (x, g1) = ev.mutate base (lit 15 2) (lit 15 1) g in
      let (rest, g2) = elite_mutants ev elites (i + 1) n g1 in (x ∷ rest, g2)

  -- `initPopulation`, given the param packs of the elites, best first. Each loop also stops when
  -- the population is full: the counts are cut off at what is left.
  unfoldable pub init_population : EvolvableStrategy Gene G R → List String → ℕ → G → List Gene × G
  init_population ev [] pop_size g =
      let (rest, g1) = fill_random ev (pop_size - 1) g in (ev.decode_elite "" ∷ rest, g1)
  init_population ev (e ∷ es) pop_size g =
      let elites = e ∷ es in
      let seed = ev.decode_elite e in
      let remaining = pop_size - 1 in
      let copies =
        if ltb 1 pop_size
        then elite_copies ev elites 0 (Nat.min (at_least_one (remaining * 10 / 100)) remaining)
        else [] in
      let mutants =
        Nat.min (if ltb 1 pop_size then remaining * 40 / 100 else 0) (remaining - length copies) in
      let (mutated, g1) = elite_mutants ev elites 0 mutants g in
      let (random, g2) = fill_random ev (remaining - length copies - length mutated) g1 in
      (seed ∷ (copies ++ (mutated ++ random)), g2)
