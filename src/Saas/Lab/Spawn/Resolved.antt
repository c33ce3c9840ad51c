-- ===== src/Saas/Lab/Spawn/Resolved.antt =====
-- internal/saas/epoch/service.go: every mode but the manual one resolves to a spawn point.
use trandingnok.Base.{
  ◌≡◌, ◌⊎◌, refl, inl, inr, Bool, true, Option, none, some, List, if◌then◌else◌, Bool-cases,
}
use text.Mathlib.Text.{◌==◌ as str_eq}
use trandingnok.Float.{Float64, ◌≺◌, nought}
use trandingnok.Quant.Genome.{SpawnPoint}
use trandingnok.Ga.Random.{Rand}
use trandingnok.Ga.Evolvable.{Codec, decode_spawn_from_param_pack}
use trandingnok.Saas.Lab.{GeneRecord, champion_of, newest}
use trandingnok.Saas.Lab.Spawn.{
  CreateTaskRequest, default_spawn_point, random_spawn_point, inherited, resolve_spawn_point,
}

module _ {R : Type 0} ⦃f : Float64 R⦄ where
  -- A spawn point whose capital is positive.
  abbrev pub IsFunded : Option (SpawnPoint R) → Type 0
  IsFunded o = (sp : SpawnPoint R) × (o ≡ some sp) × ((nought ≺ sp.initial_capital) ≡ true)

  inherited-funded :
      (codec : Codec R) (o : Option (GeneRecord R))
      → (nought ≺ (default_spawn_point {R = R}).initial_capital) ≡ true
      → (nought ≺ (inherited codec o).initial_capital) ≡ true
  unfolding inherited
  inherited-funded codec none rich = rich
  inherited-funded codec (some g) rich =
      elim (Bool-cases
        (nought ≺ (decode_spawn_from_param_pack codec g.param_pack).initial_capital)) [
          | inl has ↦ rw has has
          | inr lacks ↦ rw lacks rich
        ]

  -- A request in another mode than manual always resolves to a spawn point with a positive capital,
  -- whatever the database answers and the champion's pack holds; a manual one resolves to its own
  -- spawn point, if it has one.
  pub resolve_spawn_point-IsFunded :
      {G : Type 0} (codec : Codec R) (rnd : Rand G R) (g : G) (fails : Bool)
      (genes : List (GeneRecord R)) (req : CreateTaskRequest R)
      → (nought ≺ (default_spawn_point {R = R}).initial_capital) ≡ true
      → ((str_eq req.spawn_mode "manual" ≡ true)
          × (resolve_spawn_point codec rnd g fails genes req ≡ req.spawn_point))
        ⊎ IsFunded (resolve_spawn_point codec rnd g fails genes req)
  unfolding resolve_spawn_point random_spawn_point
  resolve_spawn_point-IsFunded codec rnd g fails genes req rich =
      let best = if fails then none else newest (champion_of req.strategy_id) genes in
      elim (Bool-cases (str_eq req.spawn_mode "manual")) [
        | inl manual ↦ rw manual (inl (refl, refl))
        | inr auto ↦ elim (Bool-cases (str_eq req.spawn_mode "random_once")) [
          | inl random ↦ rw (auto, random) (inr (_, refl, rich))
          | inr inherit ↦
              rw (auto, inherit)
                (inr (inherited codec best, refl, inherited-funded codec best rich))
        ]
      ]
