-- ===== src/Saas/Dispatch.antt =====
-- internal/saas/instance/manager.go: intentToCommand and dispatchCommand.
pub mod Envelope
use trandingnok.Base.{
  ℕ, ◌+◌, Bool, true, false, none, some, List, [], ◌∷◌, ◌++◌, String, ltb, if◌then◌else◌, ℤ,
}
use trandingnok.Quant.Data.{TradeIntent, Action, Engine, LotType}
use text.Mathlib.Text.{◌==◌ as str_eq}
use trandingnok.Saas.Store.{StrategyInstance, SpotExecution, pending, Db, find_first}

-- `TradeCommand`.
pub record TradeCommand : Type 0 where
  pub client_order_id : String
  pub action : Action
  pub engine : Engine
  pub symbol : String
  pub amount_usdt : String
  pub qty_asset : String
  pub lot_type : LotType

-- What the code prints: a client order id from an instance, an engine and a time, a float64 with
-- two and with eight decimals, and a command as JSON.
pub record Printer (R : Type 0) : Type 0 where
  pub order_id : ℕ → Engine → ℤ → String
  pub fixed2 : R → String
  pub fixed8 : R → String
  pub marshal : TradeCommand → String

module _ {R : Type 0} where
  abbrev pub amount_of : Printer R → TradeIntent R → Action → String
  amount_of printer intent Action.buy = printer.fixed2 intent.amount_usdt
  amount_of printer intent _ = ""

  abbrev pub qty_of : Printer R → TradeIntent R → Action → String
  qty_of printer intent Action.sell = printer.fixed8 intent.qty_asset
  qty_of printer intent _ = ""

  -- `intentToCommand`.
  unfoldable pub intent_to_command : Printer R → StrategyInstance → TradeIntent R → ℤ → TradeCommand
  intent_to_command printer inst intent now_ms = record {
    client_order_id = printer.order_id inst.id intent.engine now_ms;
    action = intent.action;
    engine = intent.engine;
    symbol = inst.symbol;
    amount_usdt = amount_of printer intent intent.action;
    qty_asset = qty_of printer intent intent.action;
    lot_type = intent.lot_type;
  }

-- A primary key that no row has.
unfoldable pub next_id : List SpotExecution → ℕ
next_id [] = 1
next_id (e ∷ es) = let n = next_id es in if ltb e.id n then n else e.id + 1

-- The state of the server: the tables, and the commands that reached agents, newest last.
pub record World (R : Type 0) : Type 0 where
  pub db : Db R
  pub sent : List (ℕ × TradeCommand)

module _ {R : Type 0} where
  -- `dispatchCommand`: the client order id of an execution is a unique index, and the pending row
  -- is written before the command is sent. The result tells whether it returned an error.
  unfoldable pub dispatch_command :
      Printer R → Bool → Bool → StrategyInstance → TradeCommand → World R → World R × Bool
  dispatch_command printer fails online inst cmd w =
      let taken = find_first (λ e. str_eq e.client_order_id cmd.client_order_id) w.db.executions in
      let row : SpotExecution = record {
        id = next_id w.db.executions;
        instance_id = inst.id;
        client_order_id = cmd.client_order_id;
        status = pending;
        raw_payload = printer.marshal cmd;
      } in
      let created : World R × Bool = (
        record {
          db = record (w.db) { executions = w.db.executions ++ (row ∷ []) };
          sent = if online then w.sent ++ ((inst.user_id, cmd) ∷ []) else w.sent;
        },
        false,
      ) in
      let insert : World R × Bool = elim taken [ some e ↦ (w, true) | none ↦ created ] in
      if fails then (w, true) else insert
