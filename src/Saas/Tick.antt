-- ===== src/Saas/Tick.antt =====
-- internal/saas/instance/manager.go: Tick.
use trandingnok.Base.{
  ℕ, ◌+◌, ◌-◌, Bool, true, false, Option, none, some, List, [], ◌∷◌, ◌++◌, String, ltb,
  if◌then◌else◌, length, get_or, ℤ, pos, leb_ℤ,
}
use trandingnok.Float.{Float64}
pub mod Rows
pub mod Once
pub mod Kept
pub mod Isolated
pub mod Errored
use trandingnok.Quant.Data.{Bar, TradeIntent, Action, extract_timestamps}
use trandingnok.Quant.Genome.{Chromosome, SpawnPoint}
use trandingnok.Strategy.Types.{StrategyInput, Strategy}
use trandingnok.Saas.Store.{StrategyInstance, Db, find_first, update_where}
use trandingnok.Saas.Lifecycle.{mark_error, apply_op}
use trandingnok.Saas.Ledger.{handle_release}
use trandingnok.Saas.Dispatch.{World, intent_to_command, dispatch_command}
use trandingnok.Saas.Load.{
  TickFaults, Feed, is_mine, is_runtime_of, load_or_create_portfolio, load_champion_params,
  runtime_of, tick_input,
}

abbrev pub is_release : Action → Bool
is_release Action.release = true
is_release _ = false

-- The bar was processed before.
abbrev pub is_processed : Option ℤ → ℤ → Bool
is_processed none time = false
is_processed (some last) time = leb_ℤ time last

module _ {R : Type 0} ⦃f : Float64 R⦄ where
  -- `upsertRuntime`.
  unfoldable pub upsert_runtime : ℕ → String → Db R → Db R
  upsert_runtime id payload db = elim (find_first (is_runtime_of id) db.runtimes) [
    | none ↦ record db {
      runtimes = db.runtimes ++ (record { instance_id = id; payload = payload } ∷ []);
    }
    | some r ↦ record db {
      runtimes = update_where (is_runtime_of id) (λ r. record r { payload = payload }) db.runtimes;
    }
  ]

  -- Step 8, from the n-th intent on.
  unfoldable pub book_releases : TickFaults → ℕ → ℕ → List (TradeIntent R) → Db R → Db R
  book_releases fails id n [] db = db
  book_releases fails id n (t ∷ ts) db =
      book_releases fails id (n + 1) ts
        (if is_release t.action then handle_release (fails.release n) id t db else db)

  -- Step 9, from the n-th intent on; an error is logged and passed over.
  unfoldable pub dispatch_all :
      TickFaults → Feed R → StrategyInstance → ℕ → List (TradeIntent R) → World R → World R
  dispatch_all fails feed inst n [] w = w
  dispatch_all fails feed inst n (t ∷ ts) w = dispatch_all fails feed inst (n + 1) ts (
      if is_release t.action
      then w
      else (dispatch_command feed.printer (fails.dispatch n) feed.online inst
          (intent_to_command feed.printer inst t feed.now_ms) w).0)

  -- Step 10.
  unfoldable pub advance : ℕ → ℤ → Db R → Db R
  advance id time db = record db {
    portfolios =
        update_where (is_mine id) (λ p. record p { last_processed_bar_time = some time })
          db.portfolios;
  }

  -- Steps 6 to 10. The flag tells whether the tick returned an error.
  unfoldable pub decide :
      Strategy R
      → TickFaults
      → Feed R
      → StrategyInstance
      → StrategyInput R
      → ℤ
      → World R
      → World R × Bool
  decide strat fails feed inst input time w =
      let out = strat input in
      if fails.save_runtime
      then (w, true)
      else (let db1 = upsert_runtime inst.id (feed.marshal_runtime out.runtime) w.db in
          let db2 = book_releases fails inst.id 0 out.intents db1 in
          let w2 = dispatch_all fails feed inst 0 out.intents (record w { db = db2 }) in
          if fails.advance
          then (w2, true)
          else (record w2 { db = advance inst.id time w2.db }, false))

  -- Steps 2 to 10, on the bars and the time of the last complete one.
  unfoldable pub run_tick :
      Strategy R
      → TickFaults
      → Feed R
      → StrategyInstance
      → List (Bar R)
      → ℤ
      → World R
      → World R × Bool
  run_tick strat fails feed inst bars time w = elim (load_or_create_portfolio fails inst.id w.db) [
    | none ↦ (w, true)
    | some loaded ↦
        let w1 = record w { db = loaded.1 } in
        let go = λ (params : Chromosome R × SpawnPoint R).
          decide strat fails feed inst
            (tick_input bars loaded.0
              (runtime_of feed (find_first (is_runtime_of inst.id) loaded.1.runtimes)) params)
            time w1 in
        let known : World R × Bool = elim (load_champion_params feed inst) [
          | none ↦ (w1, true)
          | some params ↦ go params
        ] in
        if is_processed loaded.0.last_processed_bar_time time
        then (w1, false)
        else if fails.find_runtime
        then (w1, true)
        else known
  ]

  -- The time of the last complete bar, the last but one.
  abbrev pub latest_time : List (Bar R) → ℤ
  latest_time bars = get_or (extract_timestamps bars) (length bars - 2) (pos 0)

  -- The body of `Tick`.
  unfoldable pub tick_body :
      Strategy R → TickFaults → Feed R → StrategyInstance → World R → World R × Bool
  tick_body strat fails feed inst w = elim (feed.bars) [
    | none ↦ (w, false)
    | some bars ↦
        let run = run_tick strat fails feed inst bars (latest_time bars) w in
        if ltb (length bars) 2 then (w, false) else run
  ]

  -- `Tick`, with the deferred call: an error moves a running instance to ERROR.
  unfoldable pub tick :
      Strategy R → TickFaults → Feed R → StrategyInstance → World R → World R × Bool
  tick strat fails feed inst w =
      let (w', failed) = tick_body strat fails feed inst w in
      if failed
      then (
        record w' {
          db = record (w'.db) {
            instances = (apply_op (mark_error fails.mark_error inst.id) w'.db.instances).0;
          };
        },
        true,
      )
      else (w', false)
