-- ===== src/Saas/Lab/Spawn.antt =====
-- internal/saas/epoch/service.go: the request for a task, and the spawn point that it resolves to.
pub mod Resolved
use trandingnok.Base.{ℕ, ◌+◌, Bool, Option, none, some, List, String, if◌then◌else◌, ℤ, pos}
use text.Mathlib.Text.{◌==◌ as str_eq}
use trandingnok.Float.{Float64, ◌⊕◌, ◌⊗◌, ◌≺◌, lit, nought}
use trandingnok.Quant.Genome.{SpawnPoint}
use trandingnok.Ga.Random.{Rand}
use trandingnok.Ga.Evolvable.{Codec, decode_spawn_from_param_pack}
use trandingnok.Saas.Lab.{GeneRecord, champion_of, newest}

pub record CreateTaskRequest (R : Type 0) : Type 0 where
  pub strategy_id : ℕ
  pub symbol : String
  pub interval : String
  pub pop_size : ℤ
  pub max_generations : ℤ
  pub spawn_mode : String
  pub spawn_point : Option (SpawnPoint R)
  pub test_mode : Bool
  pub lot_step : R
  pub lot_min : R

module _ {R : Type 0} ⦃f : Float64 R⦄ where
  -- `defaultSpawnPoint`.
  abbrev pub default_spawn_point : SpawnPoint R
  default_spawn_point = record {
    base_currency = "USDT";
    trading_pair = "BTC/USDT";
    initial_capital = lit 1000 0;
    reserve_floor = lit 50 0;
    roi_release_trigger = lit 50 2;
    release_ratio = lit 20 2;
    monthly_inject = lit 0 0;
  }

  -- `randomSpawnPoint`, from a fresh generator.
  unfoldable pub random_spawn_point : {G : Type 0} → Rand G R → G → SpawnPoint R
  random_spawn_point rnd g =
      let (k, g1) = rnd.intn 250 g in
      let (u, g2) = rnd.float64 g1 in
      let (v, g3) = rnd.float64 g2 in
      record {
        base_currency = "USDT";
        trading_pair = "BTC/USDT";
        initial_capital = lit 1000 0;
        reserve_floor = f.of_int (pos (50 + k));
        roi_release_trigger = lit 30 2 ⊕ u ⊗ lit 70 2;
        release_ratio = lit 10 2 ⊕ v ⊗ lit 30 2;
        monthly_inject = lit 0 0;
      }

  -- The spawn point of a champion, unless its capital is not positive.
  unfoldable pub inherited : Codec R → Option (GeneRecord R) → SpawnPoint R
  inherited codec none = default_spawn_point
  inherited codec (some g) =
      let sp = decode_spawn_from_param_pack codec g.param_pack in
      if nought ≺ sp.initial_capital then sp else default_spawn_point

  -- `resolveSpawnPoint`; `fails` is the database's answer to the query for the champion.
  unfoldable pub resolve_spawn_point :
      {G : Type 0}
      → Codec R
      → Rand G R
      → G
      → Bool
      → List (GeneRecord R)
      → CreateTaskRequest R
      → Option (SpawnPoint R)
  resolve_spawn_point codec rnd g fails genes req =
      if str_eq req.spawn_mode "manual"
      then req.spawn_point
      else if str_eq req.spawn_mode "random_once"
      then some (random_spawn_point rnd g)
      else some
          (inherited codec (if fails then none else newest (champion_of req.strategy_id) genes))

  abbrev pub test_sized : CreateTaskRequest R → CreateTaskRequest R
  test_sized req =
      if req.test_mode then record req { pop_size = pos 10; max_generations = pos 3 } else req

  abbrev pub or_default : R → R → R
  or_default x d = if f.eq x nought then d else x

  -- The overrides of the test mode, and the defaults of the fields that are empty.
  unfoldable pub prepare_request : CreateTaskRequest R → CreateTaskRequest R
  prepare_request req = record (test_sized req) {
    spawn_mode = if str_eq req.spawn_mode "" then "inherit" else req.spawn_mode;
    lot_step = or_default req.lot_step (lit 1 5);
    lot_min = or_default req.lot_min (lit 1 5);
  }
