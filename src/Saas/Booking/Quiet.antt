-- ===== src/Saas/Booking/Quiet.antt =====
-- internal/saas/instance/manager.go: a tick sends no command of an order that is in the table.
use trandingnok.Base.{
  ℕ, ◌+◌, refl, ◌∙◌, inl, inr, Bool, true, false, List, [], ◌∷◌, String, ltb, if◌then◌else◌,
  Bool-cases, Option-cases, length, ℤ,
}
use trandingnok.Float.{Float64}
use text.Mathlib.Text.{◌==◌ as str_eq}
use trandingnok.Quant.Data.{Bar, TradeIntent}
use trandingnok.Strategy.Types.{StrategyInput, Strategy}
use trandingnok.Saas.Store.{StrategyInstance, SpotExecution, Db, find_first}
use trandingnok.Saas.Dispatch.{World, Printer, TradeCommand, dispatch_command, intent_to_command}
use trandingnok.Saas.Tick.{
  upsert_runtime, is_release, book_releases, dispatch_all, advance, is_processed, decide, run_tick,
  latest_time, tick_body, tick,
}
use trandingnok.Saas.Load.{
  TickFaults, Feed, load_or_create_portfolio, load_champion_params, is_runtime_of, runtime_of,
  tick_input,
}
use trandingnok.Saas.Booking.{SameOrders}
use trandingnok.Saas.Booking.Ticks.{book_releases_same, upsert_runtime_same, load_same}
use trandingnok.Saas.Booking.Known.{is_known-append, sent_of-append, is_known-fresh, IsQuiet}

module _ {R : Type 0} ⦃f : Float64 R⦄ (order : String) where
  IsQuiet-trans : (a b c : World R) → IsQuiet order a b → IsQuiet order b c → IsQuiet order a c
  IsQuiet-trans a b c p q known = let (k, s) = p known in let (k', s') = q k in (k', s' ∙ s)

  IsQuiet-same :
      (w : World R) (db : Db R) → SameOrders w.db db → IsQuiet order w (record w { db = db })
  IsQuiet-same w db (e, _) known = (rw e known, refl)

  choose-IsQuiet :
      (w : World R) (t : Bool) (x y : World R × Bool)
      → IsQuiet order w x.0
      → IsQuiet order w y.0
      → IsQuiet order w (if t then x else y).0
  choose-IsQuiet w true x y p q = p
  choose-IsQuiet w false x y p q = q

  dispatch_command-IsQuiet :
      (printer : Printer R) (fails online : Bool) (inst : StrategyInstance) (cmd : TradeCommand)
      (w : World R)
      → IsQuiet order w (dispatch_command printer fails online inst cmd w).0
  unfolding dispatch_command
  dispatch_command-IsQuiet printer true online inst cmd w known = (known, refl)
  dispatch_command-IsQuiet printer false online inst cmd w known =
      elim (Option-cases (
        find_first (λ (e : SpotExecution). str_eq e.client_order_id cmd.client_order_id)
          w.db.executions)) [
            | inr (e, taken) ↦ rw (taken, dispatch_command) (known, refl)
            | inl free ↦
                let other = is_known-fresh order cmd.client_order_id w.db.executions free known in
                let more = is_known-append order w.db.executions _ known in
                elim (Bool-cases online) [
                  | inl on ↦
                      rw (free, dispatch_command, on)
                        (more, sent_of-append order w.sent (inst.user_id, cmd) other)
                  | inr off ↦ rw (free, dispatch_command, off) (more, refl)
                ]
          ]

  dispatch_all-IsQuiet :
      (fails : TickFaults) (feed : Feed R) (inst : StrategyInstance) (n : ℕ)
      (ts : List (TradeIntent R)) (w : World R)
      → IsQuiet order w (dispatch_all fails feed inst n ts w)
  unfolding dispatch_all
  dispatch_all-IsQuiet fails feed inst n [] w = λ known. (known, refl)
  dispatch_all-IsQuiet fails feed inst n (t ∷ ts) w = elim (Bool-cases (is_release t.action)) [
    | inl rel ↦ rw (rel, dispatch_all) (dispatch_all-IsQuiet fails feed inst (n + 1) ts w)
    | inr act ↦
        let cmd = intent_to_command feed.printer inst t feed.now_ms in
        let next = (dispatch_command feed.printer (fails.dispatch n) feed.online inst cmd w).0 in
        rw (act, dispatch_all)
          (IsQuiet-trans w next (dispatch_all fails feed inst (n + 1) ts next)
            (dispatch_command-IsQuiet feed.printer (fails.dispatch n) feed.online inst cmd w)
            (dispatch_all-IsQuiet fails feed inst (n + 1) ts next))
  ]

  decide-IsQuiet :
      (strat : Strategy R) (fails : TickFaults) (feed : Feed R) (inst : StrategyInstance)
      (input : StrategyInput R) (time : ℤ) (w : World R)
      → IsQuiet order w (decide strat fails feed inst input time w).0
  unfolding decide advance
  decide-IsQuiet strat fails feed inst input time w =
      let out = strat input in
      let db1 = upsert_runtime inst.id (feed.marshal_runtime out.runtime) w.db in
      let (e1, t1) = upsert_runtime_same inst.id (feed.marshal_runtime out.runtime) w.db in
      let db2 = book_releases fails inst.id 0 out.intents db1 in
      let (e2, t2) = book_releases_same fails inst.id 0 out.intents db1 in
      let w2 : World R = record w { db = db2 } in
      let w3 = dispatch_all fails feed inst 0 out.intents w2 in
      let sent =
        IsQuiet-trans w w2 w3 (IsQuiet-same w db2 (e2 ∙ e1, t2 ∙ t1))
          (dispatch_all-IsQuiet fails feed inst 0 out.intents w2) in
      choose-IsQuiet w fails.save_runtime (w, true) _ (λ known. (known, refl))
        (choose-IsQuiet w fails.advance _ _ sent sent)

  run_tick-IsQuiet :
      (strat : Strategy R) (fails : TickFaults) (feed : Feed R) (inst : StrategyInstance)
      (bars : List (Bar R)) (time : ℤ) (w : World R)
      → IsQuiet order w (run_tick strat fails feed inst bars time w).0
  unfolding run_tick
  run_tick-IsQuiet strat fails feed inst bars time w =
      elim (Option-cases (load_or_create_portfolio fails inst.id w.db)) [
        | inl bad ↦ rw (bad, run_tick) (λ known. (known, refl))
        | inr ((p, db'), loaded) ↦
            let w1 : World R = record w { db = db' } in
            let first = IsQuiet-same w db' (load_same fails inst.id w.db db' p loaded) in
            elim (Bool-cases (is_processed p.last_processed_bar_time time)) [
              | inl old ↦ rw (loaded, run_tick, old) first
              | inr new ↦ elim (Bool-cases fails.find_runtime) [
                | inl bad ↦ rw (loaded, run_tick, new, bad) first
                | inr good ↦ elim (Option-cases (load_champion_params feed inst)) [
                  | inl bad ↦ rw (loaded, run_tick, new, good, bad) first
                  | inr (params, found) ↦
                      let rt = runtime_of feed (find_first (is_runtime_of inst.id) db'.runtimes) in
                      let input = tick_input bars p rt params in
                      rw (loaded, run_tick, new, good, found)
                        (IsQuiet-trans w w1 (decide strat fails feed inst input time w1).0 first
                          (decide-IsQuiet strat fails feed inst input time w1))
                ]
              ]
            ]
      ]

  body-IsQuiet :
      (strat : Strategy R) (fails : TickFaults) (feed : Feed R) (inst : StrategyInstance)
      (w : World R)
      → IsQuiet order w (tick_body strat fails feed inst w).0
  unfolding tick_body
  body-IsQuiet strat fails feed inst w = elim (Option-cases (feed.bars)) [
    | inl missing ↦ rw (missing, tick_body) (λ known. (known, refl))
    | inr (bars, got) ↦
        rw (got, tick_body)
          (choose-IsQuiet w (ltb (length bars) 2) (w, false)
            (run_tick strat fails feed inst bars (latest_time bars) w) (λ known. (known, refl))
            (run_tick-IsQuiet strat fails feed inst bars (latest_time bars) w))
  ]

  pub tick-IsQuiet :
      (strat : Strategy R) (fails : TickFaults) (feed : Feed R) (inst : StrategyInstance)
      (w : World R)
      → IsQuiet order w (tick strat fails feed inst w).0
  unfolding tick
  tick-IsQuiet strat fails feed inst w =
      let body = body-IsQuiet strat fails feed inst w in
      choose-IsQuiet w (tick_body strat fails feed inst w).1 _ _ body body
