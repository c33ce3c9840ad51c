-- ===== src/System/Dispatched.antt =====
-- An order from a tick to the ledger: internal/saas/instance/manager.go and internal/saas/ws
-- together.
use trandingnok.Base.{◌≡◌, false, Option, none, some, String, ◌==◌}
use text.Mathlib.Text.{◌==◌ as str_eq}
use trandingnok.Saas.Store.{StrategyInstance, SpotExecution, pending, PortfolioRow, Db, find_first}
use trandingnok.Json.{Json}
use trandingnok.Saas.DeltaReport.{StoredCommand}
use trandingnok.Saas.Hub.{Hub}
use trandingnok.Saas.Dispatch.{TradeCommand, Printer, next_id}

module _ {R : Type 0} (printer : Printer R) (inst : StrategyInstance) (cmd : TradeCommand) where
  -- The row of the dispatched order.
  abbrev pub row_of : Db R → SpotExecution
  row_of db = record {
    id = next_id db.executions;
    instance_id = inst.id;
    client_order_id = cmd.client_order_id;
    status = pending;
    raw_payload = printer.marshal cmd;
  }

  -- The order's id is fresh and not empty, the text of its command can be read back, and its
  -- instance has an account row.
  pub record IsFresh (decode : String → Option StoredCommand) (stored : StoredCommand)
      (p : PortfolioRow R) (db : Db R) : Type 0 where
    pub named : str_eq cmd.client_order_id "" ≡ false
    pub unused :
        find_first
          (λ (e : SpotExecution). str_eq e.client_order_id cmd.client_order_id)
          db.executions
        ≡ none
    pub untraded : find_first (λ t. str_eq t.client_order_id cmd.client_order_id) db.trades ≡ none
    pub stored_text : decode (printer.marshal cmd) ≡ some stored
    pub owned : find_first (λ q. q.instance_id == inst.id) db.portfolios ≡ some p
