-- ===== src/Saas/Tick/Isolated.antt =====
-- internal/saas/instance/manager.go: a tick touches the rows of its own instance only.
use trandingnok.Base.{
  ℕ, ◌≡◌, ◌≢◌, refl, ap, ◌∙◌, inl, inr, Bool, true, false, some, List, arith, ltb, if◌then◌else◌,
  Bool-cases, Option-cases, length, ℤ,
}
use trandingnok.Float.{Float64}
use trandingnok.Quant.Data.{Bar}
use trandingnok.Strategy.Types.{StrategyInput, Strategy}
use trandingnok.Saas.Store.{running, errored, StrategyInstance, PortfolioRow, Db, find_first}
use trandingnok.Saas.Lifecycle.{with_id, in_status, change_status, mark_error, apply_op}
use trandingnok.Saas.Store.First.{find_first-update_where, find_first-append, eqb_other}
use trandingnok.Saas.Dispatch.{World}
use trandingnok.Saas.Tick.{
  upsert_runtime, book_releases, dispatch_all, advance, is_processed, decide, run_tick, latest_time,
  tick_body, tick,
}
use trandingnok.Saas.Load.{
  TickFaults, Feed, is_mine, is_runtime_of, zero_row, load_or_create_portfolio,
  load_champion_params, runtime_of, tick_input,
}
use trandingnok.Saas.Tick.Kept.{
  Keeps, Keeps-trans, book_releases-Keeps, dispatch_all-Keeps, upsert_runtime-Keeps, advance-Keeps,
}

mark_error-other :
    (fails : Bool) (id other : ℕ) (is : List StrategyInstance)
    → other ≢ id
    → find_first (with_id other) (apply_op (mark_error fails id) is).0
      ≡ find_first (with_id other) is
unfolding apply_op change_status
mark_error-other true id other is differs = refl
mark_error-other false id other is differs =
    find_first-update_where (with_id other) (in_status id running)
      (λ i. record i { status = errored }) is
      (λ x k. eqb_other id other x.id differs (ground arith))
      (λ x k. eqb_other id other x.id differs (ground arith))

module _ {R : Type 0} ⦃f : Float64 R⦄ where
  choose-Keeps :
      (other : ℕ) (a : Db R) (b : Bool) (x y : World R × Bool)
      → Keeps other a x.0.db
      → Keeps other a y.0.db
      → Keeps other a (if b then x else y).0.db
  choose-Keeps other a true x y kx ky = kx
  choose-Keeps other a false x y kx ky = ky

  decide-Keeps :
      (other : ℕ) (strat : Strategy R) (fails : TickFaults) (feed : Feed R)
      (inst : StrategyInstance) (input : StrategyInput R) (time : ℤ) (w : World R)
      → other ≢ inst.id
      → Keeps other w.db (decide strat fails feed inst input time w).0.db
  unfolding decide
  decide-Keeps other strat fails feed inst input time w differs =
      let out = strat input in
      let payload = feed.marshal_runtime out.runtime in
      let db1 = upsert_runtime inst.id payload w.db in
      let db2 = book_releases fails inst.id 0 out.intents db1 in
      let w2 = dispatch_all fails feed inst 0 out.intents (record w { db = db2 }) in
      let up_to_sent : Keeps other w.db w2.db =
        Keeps-trans other w.db db1 w2.db (upsert_runtime-Keeps inst.id other payload w.db differs) (
          Keeps-trans other db1 db2 w2.db
            (book_releases-Keeps fails inst.id other 0 out.intents db1 differs)
            (dispatch_all-Keeps other fails feed inst 0 out.intents (record w { db = db2 }))) in
      let up_to_end =
        Keeps-trans other w.db w2.db (advance inst.id time w2.db) up_to_sent
          (advance-Keeps inst.id other time w2.db differs) in
      choose-Keeps other w.db fails.save_runtime (w, true) _ (refl, refl, refl)
        (choose-Keeps other w.db fails.advance (w2, true)
          (record w2 { db = advance inst.id time w2.db }, false) up_to_sent up_to_end)

  load-Keeps :
      (fails : TickFaults) (id other : ℕ) (db db' : Db R) (p : PortfolioRow R)
      → other ≢ id
      → load_or_create_portfolio fails id db ≡ some (p, db')
      → Keeps other db db'
  unfolding load_or_create_portfolio
  load-Keeps fails id other db db' p differs e =
      let new = find_first-append (is_mine other) db.portfolios (zero_row id) (ground arith) in
      ground (arith, new)

  run_tick-Keeps :
      (other : ℕ) (strat : Strategy R) (fails : TickFaults) (feed : Feed R)
      (inst : StrategyInstance) (bars : List (Bar R)) (time : ℤ) (w : World R)
      → other ≢ inst.id
      → Keeps other w.db (run_tick strat fails feed inst bars time w).0.db
  unfolding run_tick
  run_tick-Keeps other strat fails feed inst bars time w differs =
      elim (Option-cases (load_or_create_portfolio fails inst.id w.db)) [
        | inl bad ↦ rw (bad, run_tick) (refl, refl, refl)
        | inr ((p, db'), loaded) ↦
            let w1 : World R = record w { db = db' } in
            let first = load-Keeps fails inst.id other w.db db' p differs loaded in
            elim (Bool-cases (is_processed p.last_processed_bar_time time)) [
              | inl old ↦ rw (loaded, run_tick, old) first
              | inr new ↦ elim (Bool-cases fails.find_runtime) [
                | inl bad ↦ rw (loaded, run_tick, new, bad) first
                | inr good ↦ elim (Option-cases (load_champion_params feed inst)) [
                  | inl bad ↦ rw (loaded, run_tick, new, good, bad) first
                  | inr (params, known) ↦
                      let rt = runtime_of feed (find_first (is_runtime_of inst.id) db'.runtimes) in
                      let input = tick_input bars p rt params in
                      rw (loaded, run_tick, new, good, known)
                        (Keeps-trans other w.db db'
                          (decide strat fails feed inst input time w1).0.db first
                          (decide-Keeps other strat fails feed inst input time w1 differs))
                ]
              ]
            ]
      ]

  pub tick_body-Keeps :
      (other : ℕ) (strat : Strategy R) (fails : TickFaults) (feed : Feed R)
      (inst : StrategyInstance) (w : World R)
      → other ≢ inst.id
      → Keeps other w.db (tick_body strat fails feed inst w).0.db
  unfolding tick_body
  tick_body-Keeps other strat fails feed inst w differs = elim (Option-cases (feed.bars)) [
    | inl missing ↦ rw (missing, tick_body) (refl, refl, refl)
    | inr (bars, got) ↦ elim (Bool-cases (ltb (length bars) 2)) [
      | inl few ↦ rw (got, tick_body, few) (refl, refl, refl)
      | inr many ↦
          rw (got, tick_body, many)
            (run_tick-Keeps other strat fails feed inst bars (latest_time bars) w differs)
    ]
  ]

  -- A tick of one instance, with any strategy and any failing calls, leaves the account row, the
  -- runtime state and the row of every other instance as they are.
  pub tick-Isolated :
      (strat : Strategy R) (fails : TickFaults) (feed : Feed R) (inst : StrategyInstance)
      (other : ℕ) (w : World R)
      → other ≢ inst.id
      → let w' = (tick strat fails feed inst w).0 in
        (find_first (is_mine other) w'.db.portfolios ≡ find_first (is_mine other) w.db.portfolios)
        × (find_first (is_runtime_of other) w'.db.runtimes
            ≡ find_first (is_runtime_of other) w.db.runtimes)
        × (find_first (with_id other) w'.db.instances ≡ find_first (with_id other) w.db.instances)
  unfolding tick
  tick-Isolated strat fails feed inst other w differs =
      let (p, r, i) = tick_body-Keeps other strat fails feed inst w differs in
      let body = tick_body strat fails feed inst w in
      let marked = mark_error-other fails.mark_error inst.id other (body.0.db.instances) differs in
      elim (Bool-cases (body.1)) [
        | inl bad ↦ rw (tick, bad) (p, r, marked ∙ ap (find_first (with_id other)) i)
        | inr good ↦ rw (tick, good) (p, r, ap (find_first (with_id other)) i)
      ]
