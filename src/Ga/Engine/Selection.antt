-- ===== src/Ga/Engine/Selection.antt =====
-- internal/saas/ga/engine.go: tournaments and the next population never fail.
use trandingnok.Base.{
  ℕ, zero, suc, ◌-◌, ◌≤◌, ◌<◌, ◌≡◌, refl, ap, some, List, [], ◌∷◌, ◌++◌, map, arith, if◌then◌else◌,
  length, get_elem?, take, length-append, length-map,
}
use trandingnok.Float.{Float64, ◌≺◌}
use trandingnok.Ga.Random.{Rand, IsRand}
use trandingnok.Ga.Engine.{
  EvolvableStrategy, Individual, Hyper, ◌>>=◌, challenge, tournament_select, breed, next_population,
}

get_elem?-some {ℓ} :
    {A : Type ℓ} (xs : List A) (i : ℕ) → i < length xs → (a : A) × (get_elem? xs i ≡ some a)
get_elem?-some [] i h = elim h [ ]
get_elem?-some (x ∷ xs) zero h = (x, refl)
get_elem?-some (x ∷ xs) (suc i) h = get_elem?-some xs i (omega arith)

pub length-take {ℓ} :
    {A : Type ℓ} (n : ℕ) (xs : List A) → (length (take n xs) ≤ n) × (length (take n xs) ≤ length xs)
length-take zero xs = omega arith
length-take (suc n) [] = omega arith
length-take (suc n) (x ∷ xs) = let (a, b) = length-take n xs in omega arith

module _ {Gene G R : Type 0} ⦃f : Float64 R⦄ (rnd : Rand G R) (fair : IsRand rnd) where
  challenge_total :
      (n : ℕ) (inds : List (Individual Gene R)) (best : Individual Gene R) (g : G)
      → 0 < length inds
      → (r : Individual Gene R × G) × (challenge rnd n inds best g ≡ some r)
  unfolding challenge
  challenge_total zero inds best g h = ((best, g), refl)
  challenge_total (suc n) inds best g h =
      let (i, g1) = rnd.intn (length inds) g in
      let (c, found) = get_elem?-some inds i (fair.intn-lt (length inds) g h) in
      let (r, e) = challenge_total n inds (if best.fitness ≺ c.fitness then c else best) g1 h in
      (r, rw (found, ◌>>=◌) e)

  tournament_select_total :
      (inds : List (Individual Gene R)) (size : ℕ) (g : G)
      → 0 < length inds
      → (r : Gene × G) × (tournament_select rnd inds size g ≡ some r)
  unfolding tournament_select
  tournament_select_total inds size g h =
      let (i, g1) = rnd.intn (length inds) g in
      let (first, found) = get_elem?-some inds i (fair.intn-lt (length inds) g h) in
      let (r, e) = challenge_total (size - 1) inds first g1 h in
      ((r.0.gene, r.1), rw (found, ◌>>=◌) (rw (e, ◌>>=◌)))

  breed_total :
      (ev : EvolvableStrategy Gene G R) (n : ℕ) (inds : List (Individual Gene R)) (size : ℕ)
      (prob scale : R) (g : G)
      → 0 < length inds
      → (r : List Gene × G) × (breed rnd ev n inds size prob scale g ≡ some r) × (length r.0 ≡ n)
  unfolding breed
  breed_total ev zero inds size prob scale g h = (([], g), refl, refl)
  breed_total ev (suc n) inds size prob scale g h =
      let (p, e1) = tournament_select_total inds size g h in
      let (q, e2) = tournament_select_total inds size p.1 h in
      let (child, g3) = ev.crossover p.0 q.0 q.1 in
      let (child', g4) = ev.mutate child prob scale g3 in
      let (r, e3, len) = breed_total ev n inds size prob scale g4 h in
      ((child' ∷ r.0, r.1), rw (e1, ◌>>=◌) (rw (e2, ◌>>=◌) (rw (e3, ◌>>=◌))), ap suc len)

  -- From a population that is not empty the next one is always bred, without a draw out of range.
  -- It begins with the genes of the elite, unchanged and in order, and has the population size,
  -- unless the elite alone is larger.
  pub next_population_total :
      (ev : EvolvableStrategy Gene G R) (hyper : Hyper R) (pop_size : ℕ)
      (inds : List (Individual Gene R)) (prob scale : R) (g : G)
      → 0 < length inds
      → let elite = map (λ i. i.gene) (take hyper.elite_count inds) in
        (children : List Gene) × (g' : G) × (next_population rnd ev hyper pop_size inds prob scale g
          ≡ some (elite ++ children, g'))
        × (length children ≡ pop_size - length elite)
        × (hyper.elite_count ≤ pop_size → length (elite ++ children) ≡ pop_size)
  unfolding next_population
  next_population_total ev hyper pop_size inds prob scale g h =
      let elite = map (λ i. i.gene) (take hyper.elite_count inds) in
      let (r, e, len) =
        breed_total ev (pop_size - length elite) inds hyper.tournament_size prob scale g h in
      let (few, _) = length-take hyper.elite_count inds in
      (
        r.0,
        r.1,
        rw (e, ◌>>=◌),
        len,
        λ fits. omega (
          arith,
          length-append elite r.0,
          length-map (take hyper.elite_count inds) (λ i. i.gene),
        ),
      )
