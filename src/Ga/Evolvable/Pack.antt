-- ===== src/Ga/Evolvable/Pack.antt =====
-- internal/saas/ga/sigmoid_dca_evolvable.go: the param pack that an epoch stores and reads back.
use trandingnok.Base.{◌∙◌, ◌≡◌, refl, some}
use trandingnok.Float.{IsOrdered, Float64}
use trandingnok.Quant.Genome.{Chromosome, SpawnPoint}
use trandingnok.Quant.Genome.Legal.{IsLegal, clamp_chromosome_legal}
use trandingnok.Ga.Evolvable.{
  ParamPack, Codec, parse_pack, decode_elite, encode_result, decode_spawn_from_param_pack,
}

-- What package encoding/json promises of a struct of strings and finite floats: the blob is not
-- empty, and it is parsed back to the same struct.
pub record RoundTrips {R : Type 0} (codec : Codec R) (pp : ParamPack R) : Type 0 where
  pub parsed : codec.unmarshal (codec.marshal pp) ≡ some pp
  pub nonempty : parse_pack codec (codec.marshal pp) ≡ codec.unmarshal (codec.marshal pp)

module _ {R : Type 0} ⦃f : Float64 R⦄ (ord : IsOrdered R) (codec : Codec R) where
  -- A legal chromosome and the spawn point it was evolved for, stored by EncodeResult, are read
  -- back unchanged by DecodeElite and DecodeSpawnFromParamPack.
  pub decode_elite-encode_result :
      (c : Chromosome R) (sp : SpawnPoint R)
      → RoundTrips codec (record { spawn_point = sp; config = c })
      → IsLegal c
      → (decode_elite codec (encode_result codec c (some sp)) ≡ c)
        × (decode_spawn_from_param_pack codec (encode_result codec c (some sp)) ≡ sp)
  unfolding decode_elite encode_result decode_spawn_from_param_pack
  decode_elite-encode_result c sp json legal = (
    rw (json.nonempty ∙ json.parsed, decode_elite) (clamp_chromosome_legal ord c legal),
    rw (json.parsed, decode_spawn_from_param_pack) refl,
  )
