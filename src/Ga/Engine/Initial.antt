-- ===== src/Ga/Engine/Initial.antt =====
-- internal/saas/ga/engine.go: the initial population.
use trandingnok.Base.{
  ℕ, zero, suc, ◌+◌, ◌-◌, ◌*◌, ◌/◌, ◌≤◌, ◌≡◌, refl, ap, inl, inr, some, List, [], ◌∷◌, ◌++◌, arith,
  String, ltb, Bool-cases, length, get_elem?, get_or, length-append,
}
use trandingnok.Float.{Float64}
use Prim.Native.Nat
use trandingnok.Ga.Engine.{
  EvolvableStrategy, fill_random, elite_copies, elite_mutants, at_least_one, init_population,
}

module _ {Gene G R : Type 0} (ev : EvolvableStrategy Gene G R) where
  length-fill_random : (n : ℕ) (g : G) → length (fill_random ev n g).0 ≡ n
  unfolding fill_random
  length-fill_random zero g = refl
  length-fill_random (suc n) g = ap suc (length-fill_random n (ev.sample g).1)

  length-elite_copies : (elites : List String) (i n : ℕ) → length (elite_copies ev elites i n) ≡ n
  unfolding elite_copies
  length-elite_copies elites i zero = refl
  length-elite_copies elites i (suc n) = ap suc (length-elite_copies elites (i + 1) n)

module _ {Gene G R : Type 0} ⦃f : Float64 R⦄ (ev : EvolvableStrategy Gene G R) where
  length-elite_mutants :
      (elites : List String) (i n : ℕ) (g : G) → length (elite_mutants ev elites i n g).0 ≡ n
  unfolding elite_mutants
  length-elite_mutants elites i zero g = refl
  length-elite_mutants elites i (suc n) g = ap suc (length-elite_mutants elites (i + 1) n _)

  -- Copies, as many mutants as fit up to a number, and random genes for the rest.
  length-filled :
      (elites : List String) (copies : List Gene) (remaining wanted : ℕ) (g : G)
      → length copies ≤ remaining
      → let (mutated, g1) =
          elite_mutants ev elites 0 (Nat.min wanted (remaining - length copies)) g in
        let random = (fill_random ev (remaining - length copies - length mutated) g1).0 in
        length (copies ++ (mutated ++ random)) ≡ remaining
  length-filled elites copies remaining wanted g h =
      let m = Nat.min wanted (remaining - length copies) in
      let (mutated, g1) = elite_mutants ev elites 0 m g in
      let n = remaining - length copies - length mutated in
      let random = (fill_random ev n g1).0 in
      omega (
        arith,
        length-append copies (mutated ++ random),
        length-append mutated random,
        length-elite_mutants elites 0 m g,
        length-fill_random ev n g1,
      )

  -- The initial population has exactly the asked size, and its first gene is that of the best elite
  -- record as it is stored, or the default seed where no record exists.
  pub init_population-size :
      (elites : List String) (pop_size : ℕ) (g : G)
      → 1 ≤ pop_size
      → let pop = (init_population ev elites pop_size g).0 in
        (length pop ≡ pop_size) × (get_elem? pop 0 ≡ some (ev.decode_elite (get_or elites 0 "")))
  unfolding init_population
  init_population-size [] pop_size g h =
      (omega (arith, length-fill_random ev (pop_size - 1) g), refl)
  init_population-size (e ∷ es) pop_size g h =
      let remaining = pop_size - 1 in
      let n = Nat.min (at_least_one (remaining * 10 / 100)) remaining in
      let few = length-elite_copies ev (e ∷ es) 0 n in
      elim (Bool-cases (ltb 1 pop_size)) [
        | inl many ↦ rw many (
          (omega (
            arith,
            length-filled (e ∷ es) (elite_copies ev (e ∷ es) 0 n) remaining (remaining * 40 / 100) g
                (omega arith),
          )),
          refl,
        )
        | inr one ↦
            rw one ((omega (arith, length-filled (e ∷ es) [] remaining 0 g (omega arith))), refl)
      ]
