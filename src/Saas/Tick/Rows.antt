-- ===== src/Saas/Tick/Rows.antt =====
-- internal/saas/instance/manager.go: the account row that the steps of a tick keep.
use trandingnok.Base.{
  ℕ, ◌+◌, ◌≡◌, refl, ◌∙◌, inl, inr, Bool, ◌||◌, none, some, List, [], ◌∷◌, ◌++◌, arith, String,
  Bool-cases, ℤ,
}
use trandingnok.Float.{Float64, ◌≼◌, nought}
use trandingnok.Quant.Data.{TradeIntent}
use trandingnok.Saas.Store.{StrategyInstance, PortfolioRow, Db, find_first}
use trandingnok.Saas.Store.First.{find_first_lem}
use trandingnok.Saas.Ledger.{Faults, cap, move, handle_release}
use trandingnok.Saas.Dispatch.{World, Printer, TradeCommand, dispatch_command, intent_to_command}
use trandingnok.Saas.Tick.{upsert_runtime, is_release, book_releases, dispatch_all, advance}
use trandingnok.Saas.Load.{TickFaults, Feed, is_mine, zero_row, load_or_create_portfolio}

module _ {R : Type 0} ⦃f : Float64 R⦄ where
  -- The instance has an account row.
  abbrev pub HasRow : ℕ → Db R → Type 0
  HasRow id db = (p : PortfolioRow R) × (find_first (is_mine id) db.portfolios ≡ some p)

  -- The instance's row is at a bar.
  abbrev pub IsAt : ℕ → ℤ → Db R → Type 0
  IsAt id time db =
      (p : PortfolioRow R) × (find_first (is_mine id) db.portfolios ≡ some p)
      × (p.last_processed_bar_time ≡ some time)

  find_first-created :
      (id : ℕ) (ps : List (PortfolioRow R))
      → find_first (is_mine id) ps ≡ none
      → find_first (is_mine id) (ps ++ (zero_row id ∷ [])) ≡ some (zero_row id)
  find_first-created id [] e = ground arith
  find_first-created id (p ∷ ps) e = ground (arith, find_first-created id ps)

  pub load-HasRow :
      (fails : TickFaults) (id : ℕ) (db : Db R) (p : PortfolioRow R) (db' : Db R)
      → load_or_create_portfolio fails id db ≡ some (p, db')
      → find_first (is_mine id) db'.portfolios ≡ some p
  unfolding load_or_create_portfolio
  load-HasRow fails id db p db' e = ground (arith, find_first-created id db.portfolios)

  handle_release-HasRow :
      (fails : Faults) (id : ℕ) (t : TradeIntent R) (db : Db R)
      → HasRow id db
      → HasRow id (handle_release fails id t db)
  unfolding handle_release
  handle_release-HasRow fails id t db (p, h) =
      let g = λ (q : PortfolioRow R). move (cap t.qty_asset p.dead_btc) p in
      let (mine, moved) = find_first_lem (is_mine id) g db.portfolios p h in
      let after = moved (λ x k. mine) in
      elim (Bool-cases (t.qty_asset ≼ nought)) [
        | inl small ↦ rw small (p, h)
        | inr large ↦ elim (Bool-cases (fails.load || fails.save || fails.audit)) [
          | inl bad ↦ rw (large, bad) (p, h)
          | inr good ↦ (g p, rw (large, good, h, handle_release) after)
        ]
      ]

  pub book_releases-HasRow :
      (fails : TickFaults) (id n : ℕ) (ts : List (TradeIntent R)) (db : Db R)
      → HasRow id db
      → HasRow id (book_releases fails id n ts db)
  unfolding book_releases
  book_releases-HasRow fails id n [] db h = h
  book_releases-HasRow fails id n (t ∷ ts) db h = elim (Bool-cases (is_release t.action)) [
    | inl rel ↦
        rw (rel, book_releases)
          (book_releases-HasRow fails id (n + 1) ts _
            (handle_release-HasRow (fails.release n) id t db h))
    | inr other ↦ rw (other, book_releases) (book_releases-HasRow fails id (n + 1) ts db h)
  ]

  dispatch_command-portfolios :
      (printer : Printer R) (fails online : Bool) (inst : StrategyInstance) (cmd : TradeCommand)
      (w : World R)
      → (dispatch_command printer fails online inst cmd w).0.db.portfolios ≡ w.db.portfolios
  unfolding dispatch_command
  dispatch_command-portfolios printer fails online inst cmd w = ground arith

  pub dispatch_all-portfolios :
      (fails : TickFaults) (feed : Feed R) (inst : StrategyInstance) (n : ℕ)
      (ts : List (TradeIntent R)) (w : World R)
      → (dispatch_all fails feed inst n ts w).db.portfolios ≡ w.db.portfolios
  unfolding dispatch_all
  dispatch_all-portfolios fails feed inst n [] w = refl
  dispatch_all-portfolios fails feed inst n (t ∷ ts) w = elim (Bool-cases (is_release t.action)) [
    | inl rel ↦ rw (rel, dispatch_all) (dispatch_all-portfolios fails feed inst (n + 1) ts w)
    | inr other ↦
        rw (other, dispatch_all)
          (dispatch_all-portfolios fails feed inst (n + 1) ts _
            ∙ dispatch_command-portfolios feed.printer (fails.dispatch n) feed.online inst
                (intent_to_command feed.printer inst t feed.now_ms) w)
  ]

  pub upsert_runtime-portfolios :
      (id : ℕ) (payload : String) (db : Db R)
      → (upsert_runtime id payload db).portfolios ≡ db.portfolios
  unfolding upsert_runtime
  upsert_runtime-portfolios id payload db = ground arith

  pub advance-IsAt :
      (id : ℕ) (time : ℤ) (db : Db R) → HasRow id db → IsAt id time (advance id time db)
  unfolding advance
  advance-IsAt id time db (p, h) =
      let g = λ (q : PortfolioRow R). record q { last_processed_bar_time = some time } in
      (g p, (find_first_lem (is_mine id) g db.portfolios p h).1 (λ x k. k), refl)
