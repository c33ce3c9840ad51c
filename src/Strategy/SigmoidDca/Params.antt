-- ===== src/Strategy/SigmoidDca/Params.antt =====
-- internal/strategies/sigmoid_dca/params.go: the strategy's own reader of parameter packs, beside
-- that of internal/saas/ga/sigmoid_dca_evolvable.go.
use trandingnok.Base.{◌≡◌, refl, inl, inr, none, some, String, Option-cases}
use trandingnok.Float.{Float64}
use trandingnok.Quant.Genome.{
  Chromosome, SpawnPoint, default_seed_chromosome, zero_spawn_point, clamp_chromosome,
}
use trandingnok.Ga.Evolvable.{Codec, parse_pack, decode_elite, decode_spawn_from_param_pack}

module _ {R : Type 0} ⦃f : Float64 R⦄ where
  -- `ParseParamPack`.
  unfoldable pub parse_param_pack : Codec R → String → Chromosome R × SpawnPoint R
  parse_param_pack codec raw = elim (codec.unmarshal raw) [
    | none ↦ (default_seed_chromosome, zero_spawn_point)
    | some pp ↦ (clamp_chromosome pp.config, pp.spawn_point)
  ]

  -- Where the empty text is no JSON, the strategy's reader and the two readers of the genetic
  -- algorithm give the same chromosome and spawn point for every text.
  pub parse_param_pack-eq-decode :
      (codec : Codec R) (raw : String)
      → codec.unmarshal "" ≡ none
      → parse_param_pack codec raw
        ≡ (decode_elite codec raw, decode_spawn_from_param_pack codec raw)
  unfolding parse_param_pack decode_elite decode_spawn_from_param_pack parse_pack
  parse_param_pack-eq-decode codec String.[] no_json =
      rw (no_json, parse_param_pack, decode_spawn_from_param_pack) refl
  parse_param_pack-eq-decode codec (String.◌∷◌ c s) no_json =
      elim (Option-cases (codec.unmarshal (String.◌∷◌ c s))) [
        | inl bad ↦ rw (bad, parse_param_pack, decode_elite, decode_spawn_from_param_pack) refl
        | inr (pp, read) ↦
            rw (read, parse_param_pack, decode_elite, decode_spawn_from_param_pack) refl
      ]
