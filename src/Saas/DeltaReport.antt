-- ===== src/Saas/DeltaReport.antt =====
-- internal/saas/ws/portfolio.go: a report of an agent, applied in one transaction.
use trandingnok.Base.{
  ℕ, ◌+◌, Bool, true, false, not, ◌&&◌, Option, none, some, List, [], ◌∷◌, ◌++◌, String, ◌==◌,
  if◌then◌else◌,
}
use trandingnok.Float.{Float64, ◌⊕◌, ◌⊖◌, ◌≺◌, nought}
pub mod Idempotent
use trandingnok.Ga.Engine.{◌>>=◌}
use text.Mathlib.Text.{◌==◌ as str_eq}
use trandingnok.Saas.Store.{
  deleted, eqb_status, StrategyInstance, PortfolioRow, SpotExecution, filled, TradeRecord, AuditLog,
  Db, find_first, update_where, awaits,
}

-- The messages of internal/saas/ws/hub.go.
pub record ExecutionMsg (R : Type 0) : Type 0 where
  pub client_order_id : String
  pub filled_qty : R
  pub filled_price : R
  pub fee : R

pub record BalanceMsg (R : Type 0) : Type 0 where
  pub asset : String
  pub available : R
  pub frozen : R

pub record DeltaReport (R : Type 0) : Type 0 where
  pub execution : Option (ExecutionMsg R)
  pub balances : List (BalanceMsg R)

-- `storedCommand`.
pub record StoredCommand : Type 0 where
  pub action : String
  pub engine : String
  pub symbol : String
  pub lot_type : String

-- The database calls, each of which may fail. A failing call changes nothing.
pub data Call : Type 0 where
  find_execution : Call
  mark_filled : Call
  load_portfolio : Call
  save_portfolio : Call
  create_trade : Call
  load_instances : Call
  update_balance : ℕ → Call
  create_audit : Call

-- `tx.Model(&exec).Update("status", "filled")`, by the primary key.
unfoldable pub mark : ℕ → List SpotExecution → List SpotExecution
mark id = update_where (λ e. e.id == id) (λ e. record e { status = filled })

-- The instances of a user that are not deleted.
unfoldable pub owned_by : ℕ → List StrategyInstance → List StrategyInstance
owned_by user_id [] = []
owned_by user_id (i ∷ is) =
    let rest = owned_by user_id is in
    if i.user_id == user_id && not (eqb_status i.status deleted) then i ∷ rest else rest

-- The result of a call, unless it fails.
abbrev pub unless {ℓ} : {A : Type ℓ} → Bool → Option A → Option A
unless true x = none
unless false x = x

module _ {R : Type 0} ⦃f : Float64 R⦄ where
  -- `maxZero`.
  abbrev pub max_zero : R → R
  max_zero v = if v ≺ nought then nought else v

  -- The switch on the lot type of a stored command.
  unfoldable pub fill_lot : StoredCommand → R → PortfolioRow R → PortfolioRow R
  fill_lot cmd qty ps =
      if str_eq cmd.lot_type "DEAD_STACK"
      then (if str_eq cmd.action "BUY"
          then record ps { dead_btc = ps.dead_btc ⊕ qty }
          else record ps { dead_btc = max_zero (ps.dead_btc ⊖ qty) })
      else if str_eq cmd.lot_type "FLOATING"
      then (if str_eq cmd.action "BUY"
          then record ps { float_btc = ps.float_btc ⊕ qty }
          else record ps { float_btc = max_zero (ps.float_btc ⊖ qty) })
      else ps

  -- The first USDT balance, or 0.
  unfoldable pub usdt_available : List (BalanceMsg R) → R
  usdt_available [] = nought
  usdt_available (b ∷ bs) = if str_eq b.asset "USDT" then b.available else usdt_available bs

  -- The update of the balance of each of the instances; a failure is logged and passed over.
  unfoldable pub set_balances :
      (Call → Bool) → R → List StrategyInstance → List (PortfolioRow R) → List (PortfolioRow R)
  set_balances fails usdt [] ps = ps
  set_balances fails usdt (i ∷ is) ps = set_balances fails usdt is (
      if fails (update_balance i.id)
      then ps
      else update_where (λ p. p.instance_id == i.id) (λ p. record p { usdt_balance = usdt }) ps)

  -- `updateBalances`. An error is `none`.
  unfoldable pub update_balances : (Call → Bool) → ℕ → List (BalanceMsg R) → Db R → Option (Db R)
  update_balances fails user_id [] db = some db
  update_balances fails user_id (b ∷ bs) db =
      if fails load_instances
      then none
      else some (record db {
        portfolios =
            set_balances fails (usdt_available (b ∷ bs)) (owned_by user_id db.instances)
              db.portfolios;
      })

  abbrev pub trade_of : SpotExecution → StoredCommand → ExecutionMsg R → TradeRecord R
  trade_of e cmd x = record {
    instance_id = e.instance_id;
    client_order_id = x.client_order_id;
    action = cmd.action;
    engine = cmd.engine;
    symbol = cmd.symbol;
    filled_qty = x.filled_qty;
    filled_price = x.filled_price;
    fee = x.fee;
  }

  abbrev pub audit_of : SpotExecution → ExecutionMsg R → AuditLog R
  audit_of e x = record {
    instance_id = e.instance_id;
    event_type = "delta_report";
    qty = x.filled_qty;
  }

  -- `tx.Create(&trade)`: the client order id of a trade is a unique index.
  unfoldable pub insert_trade :
      (Call → Bool) → TradeRecord R → List (TradeRecord R) → Option (List (TradeRecord R))
  insert_trade fails t ts =
      let taken = find_first (λ u. str_eq u.client_order_id t.client_order_id) ts in
      if fails create_trade
      then none
      else elim taken [ some u ↦ none | none ↦ some (ts ++ (t ∷ [])) ]

  -- Steps 1b to 3, on the pending execution that was found.
  unfoldable pub settle :
      (String → Option StoredCommand)
      → (Call → Bool)
      → ExecutionMsg R
      → SpotExecution
      → Db R
      → Option (Db R)
  settle decode fails x e db = do
    marked ← unless (fails mark_filled) (some (mark e.id db.executions))
    cmd ← decode e.raw_payload
    ps ←
        unless (fails load_portfolio)
          (find_first (λ p. p.instance_id == e.instance_id) db.portfolios)
    portfolios ← unless (fails save_portfolio) (
        some (
          update_where (λ p. p.instance_id == e.instance_id) (λ p. fill_lot cmd x.filled_qty ps)
            db.portfolios))
    trades ← insert_trade fails (trade_of e cmd x) db.trades
    some (record db { executions = marked; portfolios = portfolios; trades = trades })

  -- Step 5.
  unfoldable pub write_audit : (Call → Bool) → AuditLog R → Db R → Option (Db R)
  write_audit fails a db =
      unless (fails create_audit) (some (record db { audits = db.audits ++ (a ∷ []) }))

  -- Steps 4 and 5.
  unfoldable pub conclude :
      (Call → Bool) → ℕ → List (BalanceMsg R) → AuditLog R → Db R → Option (Db R)
  conclude fails user_id balances a db =
      update_balances fails user_id balances db >>= write_audit fails a

  -- Steps 1b to 5.
  unfoldable pub apply_fill :
      (String → Option StoredCommand)
      → (Call → Bool)
      → ℕ
      → ExecutionMsg R
      → List (BalanceMsg R)
      → SpotExecution
      → Db R
      → Option (Db R)
  apply_fill decode fails user_id x balances e db =
      settle decode fails x e db >>= conclude fails user_id balances (audit_of e x)

  -- The body of the transaction of `processDeltaReport`.
  unfoldable pub report_body :
      (String → Option StoredCommand) → (Call → Bool) → ℕ → DeltaReport R → Db R → Option (Db R)
  report_body decode fails user_id report db = elim (report.execution) [
    | none ↦ update_balances fails user_id report.balances db
    | some x ↦
        let exec = find_first (awaits x.client_order_id) db.executions in
        let known : Option (Db R) = elim exec [
          | none ↦ update_balances fails user_id report.balances db
          | some e ↦ apply_fill decode fails user_id x report.balances e db
        ] in
        if str_eq x.client_order_id ""
        then update_balances fails user_id report.balances db
        else unless (fails find_execution) known
  ]

  -- `processDeltaReport`: the new state, and whether it returned an error. A body that fails is
  -- rolled back.
  unfoldable pub process_delta_report :
      (String → Option StoredCommand) → (Call → Bool) → ℕ → DeltaReport R → Db R → Db R × Bool
  process_delta_report decode fails user_id report db =
      elim (report_body decode fails user_id report db) [
        | none ↦ (db, true)
        | some db' ↦ (db', false)
      ]
