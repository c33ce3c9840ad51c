-- ===== src/Ga/Engine/Ranking.antt =====
-- internal/saas/ga/engine.go: evaluation with its cache, and the sorted individuals.
use trandingnok.Base.{
  ℕ, suc, ◌<◌, ◌≡◌, refl, ap, ◌∙◌, inl, inr, true, some, List, [], ◌∷◌, arith, ◌==◌, Bool-cases,
  Option-cases, length, All, All-mono,
}
use trandingnok.Float.{IsOrdered, IsNumber, Float64, ◌≺◌, ◌≼◌}
use trandingnok.Ga.Engine.{
  Individual, best_fitness, cached, evaluate_population, build_individuals, insert_by_fitness,
  sort_by_fitness,
}
use trandingnok.Float.Order.{le_of_not_lt}

module _ {Gene R : Type 0} (fingerprint : Gene → ℕ) (score : Gene → R) where
  -- The cache holds scores of genes with the fingerprint.
  abbrev Holds : List (ℕ × R) → Type 0
  Holds [] = Unit
  Holds ((k, s) ∷ cache) = ((g : Gene) × (fingerprint g ≡ k) × (score g ≡ s)) × Holds cache

  cached-Holds :
      (cache : List (ℕ × R)) (fp : ℕ) (s : R)
      → Holds cache
      → cached fp cache ≡ some s
      → (g : Gene) × (fingerprint g ≡ fp) × (score g ≡ s)
  unfolding cached
  cached-Holds [] fp s h e = absurd (ground arith)
  cached-Holds ((k, t) ∷ cache) fp s ((g, a, b), h) e = elim (Bool-cases (k == fp)) [
    | inl hit ↦ (g, ground arith, ground arith)
    | inr miss ↦ cached-Holds cache fp s h (ground arith)
  ]

  -- The fitness of an individual is the score of a gene with its gene's fingerprint.
  abbrev pub IsScored : Individual Gene R → Type 0
  IsScored i = (g : Gene) × (fingerprint g ≡ fingerprint i.gene) × (score g ≡ i.fitness)

  build-Holds :
      (cache : List (ℕ × R)) (pop : List Gene)
      → Holds cache
      → All IsScored (build_individuals pop (evaluate_population fingerprint score cache pop))
  unfolding build_individuals evaluate_population
  build-Holds cache [] h = tt
  build-Holds cache (g ∷ pop) h = elim (Option-cases (cached (fingerprint g) cache)) [
    | inl miss ↦
        rw (miss, evaluate_population, build_individuals)
          ((g, refl, refl), build-Holds ((fingerprint g, score g) ∷ cache) pop ((g, refl, refl), h))
    | inr (c, hit) ↦
        rw (hit, evaluate_population, build_individuals)
          (cached-Holds cache (fingerprint g) c h hit, build-Holds cache pop h)
  ]

  -- The cache never gives a gene the score of a gene with another fingerprint.
  pub build_individuals-IsScored :
      (pop : List Gene)
      → All IsScored (build_individuals pop (evaluate_population fingerprint score [] pop))
  build_individuals-IsScored pop = build-Holds [] pop tt

  length-build :
      (cache : List (ℕ × R)) (pop : List Gene)
      → length (build_individuals pop (evaluate_population fingerprint score cache pop))
        ≡ length pop
  unfolding build_individuals evaluate_population
  length-build cache [] = refl
  length-build cache (g ∷ pop) = elim (Option-cases (cached (fingerprint g) cache)) [
    | inl miss ↦
        rw (miss, evaluate_population, build_individuals)
          (ap suc (length-build ((fingerprint g, score g) ∷ cache) pop))
    | inr (c, hit) ↦
        rw (hit, evaluate_population, build_individuals) (ap suc (length-build cache pop))
  ]

  pub length-build_individuals :
      (pop : List Gene)
      → length (build_individuals pop (evaluate_population fingerprint score [] pop)) ≡ length pop
  length-build_individuals pop = length-build [] pop

module _ {Gene R : Type 0} ⦃f : Float64 R⦄ where
  abbrev pub Fitnesses : (R → Type 0) → List (Individual Gene R) → Type 0
  Fitnesses P = All (λ i. P i.fitness)

  insert-All :
      (P : Individual Gene R → Type 0) (i : Individual Gene R) (inds : List (Individual Gene R))
      → P i
      → All P inds
      → All P (insert_by_fitness i inds)
  unfolding insert_by_fitness
  insert-All P i [] p ps = (p, tt)
  insert-All P i (j ∷ inds) p (q, ps) = elim (Bool-cases (j.fitness ≺ i.fitness)) [
    | inl up ↦ rw up (p, (q, ps))
    | inr down ↦ rw down (q, insert-All P i inds p ps)
  ]

  pub sort_by_fitness-All :
      (P : Individual Gene R → Type 0) (inds : List (Individual Gene R))
      → All P inds
      → All P (sort_by_fitness inds)
  unfolding sort_by_fitness
  sort_by_fitness-All P [] h = tt
  sort_by_fitness-All P (i ∷ inds) (p, ps) =
      insert-All P i (sort_by_fitness inds) p (sort_by_fitness-All P inds ps)

  length-insert :
      (i : Individual Gene R) (inds : List (Individual Gene R))
      → length (insert_by_fitness i inds) ≡ suc (length inds)
  unfolding insert_by_fitness
  length-insert i [] = refl
  length-insert i (j ∷ inds) = ground (arith, length-insert i inds)

  pub length-sort_by_fitness :
      (inds : List (Individual Gene R)) → length (sort_by_fitness inds) ≡ length inds
  unfolding sort_by_fitness
  length-sort_by_fitness [] = refl
  length-sort_by_fitness (i ∷ inds) =
      length-insert i (sort_by_fitness inds) ∙ ap suc (length-sort_by_fitness inds)

  module _ (ord : IsOrdered R) where
    insert-top :
        (i : Individual Gene R) (inds : List (Individual Gene R)) (bound : R)
        → IsNumber i.fitness
        → Fitnesses IsNumber inds
        → ((i.fitness ≼ best_fitness (insert_by_fitness i inds)) ≡ true)
          × (0 < length inds
              → (bound ≼ best_fitness inds) ≡ true
              → (bound ≼ best_fitness (insert_by_fitness i inds)) ≡ true)
    unfolding insert_by_fitness
    insert-top i [] bound n ns = (n, λ h. absurd (omega arith))
    insert-top i (j ∷ inds) bound n (m, ns) = elim (Bool-cases (j.fitness ≺ i.fitness)) [
      | inl up ↦
          rw up (
            n,
            λ h k. ord.le_trans bound j.fitness i.fitness k (ord.le_of_lt j.fitness i.fitness up),
          )
      | inr down ↦ rw down (le_of_not_lt ord j.fitness i.fitness m n down, λ h k. k)
    ]

    -- Among numbers the first individual of the sorted population is the fittest of all.
    pub sort_by_fitness-top :
        (inds : List (Individual Gene R))
        → Fitnesses IsNumber inds
        → Fitnesses (λ x. (x ≼ best_fitness (sort_by_fitness inds)) ≡ true) inds
    unfolding sort_by_fitness
    sort_by_fitness-top [] ns = tt
    sort_by_fitness-top (i ∷ []) (n, ns) = ((insert-top i [] i.fitness n tt).0, tt)
    sort_by_fitness-top (i ∷ j ∷ inds) (n, ns) =
        let sorted = sort_by_fitness (j ∷ inds) in
        let nums = sort_by_fitness-All (λ k. IsNumber k.fitness) (j ∷ inds) ns in
        let some_ : 0 < length sorted = omega (arith, length-sort_by_fitness (j ∷ inds)) in
        (
          (insert-top i sorted i.fitness n nums).0,
          All-mono (j ∷ inds) (λ k h. (insert-top i sorted k.fitness n nums).1 some_ h)
              (sort_by_fitness-top (j ∷ inds) ns),
        )
