-- ===== src/Saas/Tick/Kept.antt =====
-- internal/saas/instance/manager.go: the rows of other instances that the steps of a tick keep.
use trandingnok.Base.{
  ℕ, ◌+◌, ◌≡◌, ◌≢◌, refl, ◌∙◌, inl, inr, Bool, ◌||◌, some, List, [], ◌∷◌, arith, String, Bool-cases,
  Option-cases, ℤ,
}
use trandingnok.Float.{Float64, ◌≼◌, nought}
use trandingnok.Quant.Data.{TradeIntent}
use trandingnok.Saas.Store.{StrategyInstance, PortfolioRow, RuntimeRow, Db, find_first}
use trandingnok.Saas.Store.First.{
  find_first_lem, find_first-update_where, find_first-append, eqb_other,
}
use trandingnok.Saas.Ledger.{Faults, cap, move, handle_release}
use trandingnok.Saas.Dispatch.{World, Printer, TradeCommand, dispatch_command, intent_to_command}
use trandingnok.Saas.Tick.{upsert_runtime, is_release, book_releases, dispatch_all, advance}
use trandingnok.Saas.Load.{TickFaults, Feed, is_mine, is_runtime_of}

module _ {R : Type 0} ⦃f : Float64 R⦄ where
  -- The account and the runtime state of an instance, and all instances, stay.
  abbrev pub Keeps : ℕ → Db R → Db R → Type 0
  Keeps other db db' =
      (find_first (is_mine other) db'.portfolios ≡ find_first (is_mine other) db.portfolios)
      × (find_first (is_runtime_of other) db'.runtimes
          ≡ find_first (is_runtime_of other) db.runtimes)
      × (db'.instances ≡ db.instances)

  pub Keeps-trans : (other : ℕ) (a b c : Db R) → Keeps other a b → Keeps other b c → Keeps other a c
  Keeps-trans other a b c (p, r, i) (p', r', i') = (p' ∙ p, r' ∙ r, i' ∙ i)

  handle_release-Keeps :
      (fails : Faults) (id other : ℕ) (t : TradeIntent R) (db : Db R)
      → other ≢ id
      → Keeps other db (handle_release fails id t db)
  unfolding handle_release
  handle_release-Keeps fails id other t db differs = elim (Bool-cases (t.qty_asset ≼ nought)) [
    | inl small ↦ rw small (refl, refl, refl)
    | inr large ↦ elim (Bool-cases (fails.load || fails.save || fails.audit)) [
      | inl bad ↦ rw (large, bad) (refl, refl, refl)
      | inr good ↦ elim (Option-cases (find_first (is_mine id) db.portfolios)) [
        | inl gone ↦ rw (large, good, gone, handle_release) (refl, refl, refl)
        | inr (p, h) ↦
            let g = λ (q : PortfolioRow R). move (cap t.qty_asset p.dead_btc) p in
            let mine = (find_first_lem (is_mine id) g db.portfolios p h).0 in
            let moved =
              find_first-update_where (is_mine other) (is_mine id) g db.portfolios
                (λ x k. eqb_other id other x.instance_id differs k)
                (λ x k. eqb_other id other p.instance_id differs mine) in
            rw (large, good, h, handle_release) (moved, refl, refl)
      ]
    ]
  ]

  pub book_releases-Keeps :
      (fails : TickFaults) (id other n : ℕ) (ts : List (TradeIntent R)) (db : Db R)
      → other ≢ id
      → Keeps other db (book_releases fails id n ts db)
  unfolding book_releases
  book_releases-Keeps fails id other n [] db differs = (refl, refl, refl)
  book_releases-Keeps fails id other n (t ∷ ts) db differs =
      elim (Bool-cases (is_release t.action)) [
        | inl rel ↦
            rw (rel, book_releases)
              (Keeps-trans other db (handle_release (fails.release n) id t db)
                (book_releases fails id (n + 1) ts (handle_release (fails.release n) id t db))
                (handle_release-Keeps (fails.release n) id other t db differs)
                (book_releases-Keeps fails id other (n + 1) ts _ differs))
        | inr act ↦
            rw (act, book_releases) (book_releases-Keeps fails id other (n + 1) ts db differs)
      ]

  dispatch_command-Keeps :
      (other : ℕ) (printer : Printer R) (fails online : Bool) (inst : StrategyInstance)
      (cmd : TradeCommand) (w : World R)
      → Keeps other w.db (dispatch_command printer fails online inst cmd w).0.db
  unfolding dispatch_command
  dispatch_command-Keeps other printer fails online inst cmd w = ground arith

  pub dispatch_all-Keeps :
      (other : ℕ) (fails : TickFaults) (feed : Feed R) (inst : StrategyInstance) (n : ℕ)
      (ts : List (TradeIntent R)) (w : World R)
      → Keeps other w.db (dispatch_all fails feed inst n ts w).db
  unfolding dispatch_all
  dispatch_all-Keeps other fails feed inst n [] w = (refl, refl, refl)
  dispatch_all-Keeps other fails feed inst n (t ∷ ts) w = elim (Bool-cases (is_release t.action)) [
    | inl rel ↦ rw (rel, dispatch_all) (dispatch_all-Keeps other fails feed inst (n + 1) ts w)
    | inr act ↦
        let cmd = intent_to_command feed.printer inst t feed.now_ms in
        let next = (dispatch_command feed.printer (fails.dispatch n) feed.online inst cmd w).0 in
        rw (act, dispatch_all)
          (Keeps-trans other w.db next.db (dispatch_all fails feed inst (n + 1) ts next).db
            (dispatch_command-Keeps other feed.printer (fails.dispatch n) feed.online inst cmd w)
            (dispatch_all-Keeps other fails feed inst (n + 1) ts next))
  ]

  pub upsert_runtime-Keeps :
      (id other : ℕ) (payload : String) (db : Db R)
      → other ≢ id
      → Keeps other db (upsert_runtime id payload db)
  unfolding upsert_runtime
  upsert_runtime-Keeps id other payload db differs =
      let row : RuntimeRow = record { instance_id = id; payload = payload } in
      let g = λ (r : RuntimeRow). record r { payload = payload } in
      elim (Option-cases (find_first (is_runtime_of id) db.runtimes)) [
        | inl gone ↦
            rw (gone, upsert_runtime)
              (refl, find_first-append (is_runtime_of other) db.runtimes row (ground arith), refl)
        | inr (r, h) ↦
            let moved =
              find_first-update_where (is_runtime_of other) (is_runtime_of id) g db.runtimes
                (λ x k. eqb_other id other x.instance_id differs k)
                (λ x k. eqb_other id other x.instance_id differs k) in
            rw (h, upsert_runtime) (refl, moved, refl)
      ]

  pub advance-Keeps :
      (id other : ℕ) (time : ℤ) (db : Db R) → other ≢ id → Keeps other db (advance id time db)
  unfolding advance
  advance-Keeps id other time db differs =
      let g = λ (q : PortfolioRow R). record q { last_processed_bar_time = some time } in
      (
        find_first-update_where (is_mine other) (is_mine id) g db.portfolios
            (λ x k. eqb_other id other x.instance_id differs k)
            (λ x k. eqb_other id other x.instance_id differs k),
        refl,
        refl,
      )
