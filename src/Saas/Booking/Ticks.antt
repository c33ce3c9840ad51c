-- ===== src/Saas/Booking/Ticks.antt =====
-- internal/saas/instance/manager.go: a tick keeps the invariant of the orders.
use trandingnok.Base.{
  ℕ, ◌+◌, ◌≡◌, refl, ◌∙◌, inl, inr, true, false, some, List, [], ◌∷◌, arith, String, ltb,
  Bool-cases, Option-cases, length, ℤ,
}
use trandingnok.Float.{Float64}
use trandingnok.Quant.Data.{Bar, TradeIntent}
use trandingnok.Strategy.Types.{StrategyInput, Strategy}
use trandingnok.Saas.Store.{StrategyInstance, PortfolioRow, Db}
use trandingnok.Saas.Ledger.{Faults, handle_release}
use trandingnok.Saas.Dispatch.{World}
use trandingnok.Saas.Tick.{
  upsert_runtime, is_release, book_releases, dispatch_all, advance, is_processed, decide, run_tick,
  latest_time, tick_body, tick,
}
use trandingnok.Saas.Load.{TickFaults, Feed, load_or_create_portfolio, load_champion_params}
use trandingnok.Saas.Booking.{
  Booked, SameOrders, Booked-same, choose-Booked, dispatch_command-Booked,
}

module _ {R : Type 0} ⦃f : Float64 R⦄ where
  dispatch_all-Booked :
      (fails : TickFaults) (feed : Feed R) (inst : StrategyInstance) (n : ℕ)
      (ts : List (TradeIntent R)) (w : World R)
      → Booked w.db
      → Booked (dispatch_all fails feed inst n ts w).db
  unfolding dispatch_all
  dispatch_all-Booked fails feed inst n [] w b = b
  dispatch_all-Booked fails feed inst n (t ∷ ts) w b = elim (Bool-cases (is_release t.action)) [
    | inl rel ↦ rw (rel, dispatch_all) (dispatch_all-Booked fails feed inst (n + 1) ts w b)
    | inr other ↦
        rw (other, dispatch_all)
          (dispatch_all-Booked fails feed inst (n + 1) ts _
            (dispatch_command-Booked feed.printer (fails.dispatch n) feed.online inst _ w b))
  ]

  handle_release_same :
      (fails : Faults) (id : ℕ) (t : TradeIntent R) (db : Db R)
      → SameOrders db (handle_release fails id t db)
  unfolding handle_release
  handle_release_same fails id t db = ground arith

  pub book_releases_same :
      (fails : TickFaults) (id n : ℕ) (ts : List (TradeIntent R)) (db : Db R)
      → SameOrders db (book_releases fails id n ts db)
  unfolding book_releases
  book_releases_same fails id n [] db = (refl, refl)
  book_releases_same fails id n (t ∷ ts) db = elim (Bool-cases (is_release t.action)) [
    | inl rel ↦
        let one = handle_release_same (fails.release n) id t db in
        let rest =
          book_releases_same fails id (n + 1) ts (handle_release (fails.release n) id t db) in
        rw (rel, book_releases) (rest.0 ∙ one.0, rest.1 ∙ one.1)
    | inr other ↦ rw (other, book_releases) (book_releases_same fails id (n + 1) ts db)
  ]

  pub upsert_runtime_same :
      (id : ℕ) (payload : String) (db : Db R) → SameOrders db (upsert_runtime id payload db)
  unfolding upsert_runtime
  upsert_runtime_same id payload db = ground arith

  pub load_same :
      (fails : TickFaults) (id : ℕ) (db db' : Db R) (p : PortfolioRow R)
      → load_or_create_portfolio fails id db ≡ some (p, db')
      → SameOrders db db'
  unfolding load_or_create_portfolio
  load_same fails id db db' p e = ground arith

  decide-Booked :
      (strat : Strategy R) (fails : TickFaults) (feed : Feed R) (inst : StrategyInstance)
      (input : StrategyInput R) (time : ℤ) (w : World R)
      → Booked w.db
      → Booked (decide strat fails feed inst input time w).0.db
  unfolding decide advance
  decide-Booked strat fails feed inst input time w b =
      let out = strat input in
      let db1 = upsert_runtime inst.id (feed.marshal_runtime out.runtime) w.db in
      let b1 = Booked-same w.db db1 (upsert_runtime_same inst.id _ w.db) b in
      let db2 = book_releases fails inst.id 0 out.intents db1 in
      let b2 = Booked-same db1 db2 (book_releases_same fails inst.id 0 out.intents db1) b1 in
      let b3 = dispatch_all-Booked fails feed inst 0 out.intents (record w { db = db2 }) b2 in
      choose-Booked fails.save_runtime (w, true) _ b
        (choose-Booked fails.advance _ _ b3 (Booked-same _ _ (refl, refl) b3))

  run_tick-Booked :
      (strat : Strategy R) (fails : TickFaults) (feed : Feed R) (inst : StrategyInstance)
      (bars : List (Bar R)) (time : ℤ) (w : World R)
      → Booked w.db
      → Booked (run_tick strat fails feed inst bars time w).0.db
  unfolding run_tick
  run_tick-Booked strat fails feed inst bars time w b =
      elim (Option-cases (load_or_create_portfolio fails inst.id w.db)) [
        | inl bad ↦ rw (bad, run_tick) b
        | inr ((p, db'), loaded) ↦
            let w1 : World R = record w { db = db' } in
            let b1 = Booked-same w.db db' (load_same fails inst.id w.db db' p loaded) b in
            elim (Bool-cases (is_processed p.last_processed_bar_time time)) [
              | inl old ↦ rw (loaded, run_tick, old) b1
              | inr new ↦ elim (Bool-cases fails.find_runtime) [
                | inl bad ↦ rw (loaded, run_tick, new, bad) b1
                | inr good ↦ elim (Option-cases (load_champion_params feed inst)) [
                  | inl bad ↦ rw (loaded, run_tick, new, good, bad) b1
                  | inr (params, known) ↦
                      rw (loaded, run_tick, new, good, known)
                        (decide-Booked strat fails feed inst _ time w1 b1)
                ]
              ]
            ]
      ]

  body-Booked :
      (strat : Strategy R) (fails : TickFaults) (feed : Feed R) (inst : StrategyInstance)
      (w : World R)
      → Booked w.db
      → Booked (tick_body strat fails feed inst w).0.db
  unfolding tick_body
  body-Booked strat fails feed inst w b = elim (Option-cases (feed.bars)) [
    | inl missing ↦ rw (missing, tick_body) b
    | inr (bars, got) ↦
        rw (got, tick_body)
          (choose-Booked (ltb (length bars) 2) (w, false) _ b
            (run_tick-Booked strat fails feed inst bars (latest_time bars) w b))
  ]

  pub tick-Booked :
      (strat : Strategy R) (fails : TickFaults) (feed : Feed R) (inst : StrategyInstance)
      (w : World R)
      → Booked w.db
      → Booked (tick strat fails feed inst w).0.db
  unfolding tick
  tick-Booked strat fails feed inst w b =
      let body = body-Booked strat fails feed inst w b in
      choose-Booked (tick_body strat fails feed inst w).1 _ _ (Booked-same _ _ (refl, refl) body)
        body
