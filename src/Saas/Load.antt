-- ===== src/Saas/Load.antt =====
-- internal/saas/instance/manager.go: what a tick reads, steps 2 to 5 of Tick.
pub mod Isomorphic
use trandingnok.Base.{
  ℕ, Bool, false, ◌||◌, Option, none, some, List, [], ◌∷◌, ◌++◌, String, ◌==◌, if◌then◌else◌, ℤ,
}
use trandingnok.Float.{Float64, ◌⊖◌, nought}
use text.Mathlib.Text.{◌==◌ as str_eq}
use trandingnok.Quant.Data.{
  PortfolioState, Bar, RuntimeState, MonthStr, extract_closes, extract_highs, extract_lows,
  extract_timestamps,
}
use trandingnok.Quant.Genome.{Chromosome, SpawnPoint}
use trandingnok.Backtest.Account.{clamp0}
use trandingnok.Strategy.Types.{StrategyInput}
use trandingnok.Ga.Evolvable.{Codec, decode_elite, decode_spawn_from_param_pack}
use trandingnok.Saas.Store.{StrategyInstance, PortfolioRow, RuntimeRow, Db, find_first}
use trandingnok.Saas.Ledger.{Faults}
use trandingnok.Saas.Dispatch.{Printer}

-- The champion of a template in the database: a failing query, no row, or its param pack.
pub data Lookup : Type 0 where
  query_error : Lookup
  not_found : Lookup
  champion : String → Lookup

-- The database's answers to the calls of a tick; those of the loops depend on the intent's place.
pub record TickFaults : Type 0 where
  pub find_portfolio : Bool
  pub create_portfolio : Bool
  pub find_runtime : Bool
  pub save_runtime : Bool
  pub release : ℕ → Faults
  pub dispatch : ℕ → Bool
  pub advance : Bool
  pub mark_error : Bool

-- What a tick reads outside the tables: the bars of the exchange (none for an error), the champion
-- in the cache (none for a miss or a parse error) and in the database, the clock, whether the agent
-- is connected, and the JSON form of the runtime state.
pub record Feed (R : Type 0) : Type 0 where
  pub bars : Option (List (Bar R))
  pub cached_champion : ℕ → Option String
  pub stored_champion : ℕ → Lookup
  pub now_ms : ℤ
  pub online : Bool
  pub codec : Codec R
  pub printer : Printer R
  pub marshal_runtime : RuntimeState R → String
  pub unmarshal_runtime : String → Option (RuntimeState R)

abbrev pub is_runtime_of : ℕ → RuntimeRow → Bool
is_runtime_of id r = r.instance_id == id

module _ {R : Type 0} where
  abbrev pub is_mine : ℕ → PortfolioRow R → Bool
  is_mine id p = p.instance_id == id

module _ {R : Type 0} ⦃f : Float64 R⦄ where
  abbrev pub zero_row : ℕ → PortfolioRow R
  zero_row id = record {
    instance_id = id;
    usdt_balance = nought;
    dead_btc = nought;
    float_btc = nought;
    cold_sealed_btc = nought;
    total_equity = nought;
    last_processed_bar_time = none;
  }

  abbrev pub zero_runtime : RuntimeState R
  zero_runtime = record {
    ema200 = nought;
    ema200_history = [];
    month_high = nought;
    month_str = MonthStr.unset;
    triggered_tiers = [];
    stop_loss_hit = false;
  }

  -- `loadOrCreatePortfolio`: the row and the tables with it, or an error.
  unfoldable pub load_or_create_portfolio : TickFaults → ℕ → Db R → Option (PortfolioRow R × Db R)
  load_or_create_portfolio fails id db =
      let row : Option (PortfolioRow R × Db R) = elim (find_first (is_mine id) db.portfolios) [
        | some p ↦ some (p, db)
        | none ↦
            if fails.create_portfolio
            then none
            else some (zero_row id, record db { portfolios = db.portfolios ++ (zero_row id ∷ []) })
      ] in
      if fails.find_portfolio then none else row

  -- `decode` of a param pack.
  abbrev pub decode_pack : Codec R → String → Chromosome R × SpawnPoint R
  decode_pack codec raw = (decode_elite codec raw, decode_spawn_from_param_pack codec raw)

  -- `loadChampionParams`: the cache, then the database, then the instance's own pack.
  unfoldable pub load_champion_params :
      Feed R → StrategyInstance → Option (Chromosome R × SpawnPoint R)
  load_champion_params feed inst = elim (feed.cached_champion inst.template_id) [
    | some pack ↦ some (decode_pack feed.codec pack)
    | none ↦ elim (feed.stored_champion inst.template_id) [
      | query_error ↦ none
      | not_found ↦ some (decode_pack feed.codec inst.param_pack)
      | champion pack ↦ some (decode_pack feed.codec pack)
    ]
  ]

  -- The runtime state of a row; a payload that does not parse is a fresh state.
  unfoldable pub runtime_of : Feed R → Option RuntimeRow → RuntimeState R
  runtime_of feed none = zero_runtime
  runtime_of feed (some r) =
      if str_eq r.payload "" || str_eq r.payload "{}"
      then zero_runtime
      else elim (feed.unmarshal_runtime r.payload) [ none ↦ zero_runtime | some rt ↦ rt ]

  -- The portfolio of step 5.
  abbrev pub tick_account : PortfolioRow R → SpawnPoint R → PortfolioState R
  tick_account p spawn = record {
    total_usdt = p.usdt_balance;
    reserve_floor = spawn.reserve_floor;
    spendable_usdt = clamp0 (p.usdt_balance ⊖ spawn.reserve_floor);
    dead_stack = p.dead_btc;
    float_stack = p.float_btc;
    cold_sealed_stack = p.cold_sealed_btc;
    nav_initial = spawn.initial_capital;
  }

  -- Steps 4 and 5.
  unfoldable pub tick_input :
      List (Bar R) → PortfolioRow R → RuntimeState R → Chromosome R × SpawnPoint R → StrategyInput R
  tick_input bars p rt (c, spawn) = record {
    closes = extract_closes bars;
    highs = extract_highs bars;
    lows = extract_lows bars;
    timestamps = extract_timestamps bars;
    portfolio = tick_account p spawn;
    runtime = rt;
    params = c;
    spawn_point = spawn;
  }
