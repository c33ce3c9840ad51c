-- ===== src/Saas/Tick/Once.antt =====
-- internal/saas/instance/manager.go: a bar is traded once.
use trandingnok.Base.{
  ℕ, ◌≡◌, inl, inr, true, false, none, some, List, arith, ltb, Bool-cases, Option-cases, length, ℤ,
}
use trandingnok.Float.{Float64}
use trandingnok.Quant.Data.{Bar}
use trandingnok.Strategy.Types.{StrategyInput, Strategy}
use trandingnok.Saas.Store.{StrategyInstance, PortfolioRow, Db, find_first}
use trandingnok.Saas.Dispatch.{World}
use trandingnok.Saas.Tick.{
  upsert_runtime, book_releases, dispatch_all, advance, is_processed, decide, run_tick, latest_time,
  tick_body, tick,
}
use trandingnok.Saas.Load.{
  TickFaults, Feed, is_mine, is_runtime_of, load_or_create_portfolio, load_champion_params,
  runtime_of, tick_input,
}
use trandingnok.Saas.Tick.Rows.{
  HasRow, IsAt, load-HasRow, book_releases-HasRow, dispatch_all-portfolios,
  upsert_runtime-portfolios, advance-IsAt,
}

module _ {R : Type 0} ⦃f : Float64 R⦄ where
  decide-IsAt :
      (strat : Strategy R) (fails : TickFaults) (feed : Feed R) (inst : StrategyInstance)
      (input : StrategyInput R) (time : ℤ) (w w' : World R)
      → HasRow inst.id w.db
      → decide strat fails feed inst input time w ≡ (w', false)
      → IsAt inst.id time w'.db
  unfolding decide
  decide-IsAt strat fails feed inst input time w w' (p, h) e =
      let out = strat input in
      let db1 = upsert_runtime inst.id (feed.marshal_runtime out.runtime) w.db in
      let kept = upsert_runtime-portfolios inst.id (feed.marshal_runtime out.runtime) w.db in
      let (q, k) = book_releases-HasRow fails inst.id 0 out.intents db1 (p, rw kept h) in
      let w2 =
        dispatch_all fails feed inst 0 out.intents
          (record w { db = book_releases fails inst.id 0 out.intents db1 }) in
      let same =
        dispatch_all-portfolios fails feed inst 0 out.intents
          (record w { db = book_releases fails inst.id 0 out.intents db1 }) in
      let at = advance-IsAt inst.id time w2.db (q, rw same k) in
      elim (Bool-cases fails.save_runtime) [
        | inl bad ↦ absurd (ground arith)
        | inr saved ↦ elim (Bool-cases fails.advance) [
          | inl bad ↦ absurd (ground arith)
          | inr moved ↦
              let ends : record w2 { db = advance inst.id time w2.db } ≡ w' = ground arith in
              rw (← ends) at
        ]
      ]

  -- The instance's row has seen a time.
  abbrev pub IsDone : ℕ → ℤ → Db R → Type 0
  IsDone id time db =
      (p : PortfolioRow R) × (find_first (is_mine id) db.portfolios ≡ some p)
      × (is_processed p.last_processed_bar_time time ≡ true)

  IsDone-of_at : (id : ℕ) (time : ℤ) (db : Db R) → IsAt id time db → IsDone id time db
  IsDone-of_at id time db (p, h, e) = (p, h, rw e (ground arith))

  run_tick-IsDone :
      (strat : Strategy R) (fails : TickFaults) (feed : Feed R) (inst : StrategyInstance)
      (bars : List (Bar R)) (time : ℤ) (w w' : World R)
      → run_tick strat fails feed inst bars time w ≡ (w', false)
      → IsDone inst.id time w'.db
  unfolding run_tick
  run_tick-IsDone strat fails feed inst bars time w w' e =
      elim (Option-cases (load_or_create_portfolio fails inst.id w.db)) [
        | inl bad ↦ absurd (ground arith)
        | inr ((p, db'), loaded) ↦
            let row = load-HasRow fails inst.id w.db p db' loaded in
            let w1 : World R = record w { db = db' } in
            elim (Bool-cases (is_processed p.last_processed_bar_time time)) [
              | inl old ↦ let ends : w1 ≡ w' = ground arith in rw (← ends) (p, row, old)
              | inr new ↦ elim (Option-cases (load_champion_params feed inst)) [
                | inl bad ↦ absurd (ground arith)
                | inr (params, known) ↦
                    let input =
                      tick_input bars p
                        (runtime_of feed (find_first (is_runtime_of inst.id) db'.runtimes))
                        params in
                    let ends : decide strat fails feed inst input time w1 ≡ (w', false) =
                      ground arith in
                    IsDone-of_at inst.id time w'.db
                      (decide-IsAt strat fails feed inst input time w1 w' (p, row) ends)
              ]
            ]
      ]

  run_tick_again :
      (strat : Strategy R) (fails : TickFaults) (feed : Feed R) (inst : StrategyInstance)
      (bars : List (Bar R)) (time : ℤ) (w : World R)
      → fails.find_portfolio ≡ false
      → IsDone inst.id time w.db
      → run_tick strat fails feed inst bars time w ≡ (w, false)
  unfolding run_tick load_or_create_portfolio
  run_tick_again strat fails feed inst bars time w ok (p, row, old) = ground arith

  -- The tick has nothing left to do on its bars.
  pub data IsSeen (feed : Feed R) (inst : StrategyInstance) (w : World R) : Type 0 where
    unread : feed.bars ≡ none → IsSeen feed inst w
    few :
        (bars : List (Bar R))
        → feed.bars ≡ some bars
        → ltb (length bars) 2 ≡ true
        → IsSeen feed inst w
    seen :
        (bars : List (Bar R))
        → feed.bars ≡ some bars
        → ltb (length bars) 2 ≡ false
        → IsDone inst.id (latest_time bars) w.db
        → IsSeen feed inst w

  pub tick-IsSeen :
      (strat : Strategy R) (fails : TickFaults) (feed : Feed R) (inst : StrategyInstance)
      (w w' : World R)
      → tick strat fails feed inst w ≡ (w', false)
      → IsSeen feed inst w'
  unfolding tick tick_body
  tick-IsSeen strat fails feed inst w w' e = elim (Option-cases (feed.bars)) [
    | inl missing ↦ unread missing
    | inr (bars, got) ↦ elim (Bool-cases (ltb (length bars) 2)) [
      | inl short ↦ few bars got short
      | inr many ↦
          let ran : run_tick strat fails feed inst bars (latest_time bars) w ≡ (w', false) =
            ground arith in
          seen bars got many
            (run_tick-IsDone strat fails feed inst bars (latest_time bars) w w' ran)
    ]
  ]

  pub tick-seen :
      (strat : Strategy R) (fails : TickFaults) (feed feed' : Feed R) (inst : StrategyInstance)
      (w : World R)
      → feed'.bars ≡ feed.bars
      → fails.find_portfolio ≡ false
      → IsSeen feed inst w
      → tick strat fails feed' inst w ≡ (w, false)
  unfolding tick tick_body
  tick-seen strat fails feed feed' inst w same ok (unread missing) = ground arith
  tick-seen strat fails feed feed' inst w same ok (few bars got short) = ground arith
  tick-seen strat fails feed feed' inst w same ok (seen bars got many done) =
      let again = run_tick_again strat fails feed' inst bars (latest_time bars) w ok done in
      ground arith

  -- After a tick that returned no error, every further tick of the instance on the same bars, with
  -- any champion, clock, agent and other failing calls, as long as its account row can be read,
  -- returns no error and changes nothing: no order of a bar is sent a second time.
  pub tick-once :
      (strat : Strategy R) (fails fails' : TickFaults) (feed feed' : Feed R)
      (inst : StrategyInstance) (w w' : World R)
      → feed'.bars ≡ feed.bars
      → fails'.find_portfolio ≡ false
      → tick strat fails feed inst w ≡ (w', false)
      → tick strat fails' feed' inst w' ≡ (w', false)
  tick-once strat fails fails' feed feed' inst w w' same ok e =
      tick-seen strat fails' feed feed' inst w' same ok (tick-IsSeen strat fails feed inst w w' e)
