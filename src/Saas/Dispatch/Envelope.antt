-- ===== src/Saas/Dispatch/Envelope.antt =====
-- internal/saas/instance/manager.go: the message that carries a command to an agent.
use trandingnok.Base.{String, if◌then◌else◌}
use text.Mathlib.Text.{◌==◌ as str_eq}
use trandingnok.Json.{Json, str, obj, Fields, end, field}
use trandingnok.Quant.Data.{Action, Engine, LotType}
use trandingnok.Saas.Dispatch.{TradeCommand}

-- The texts of the strings of a command.
abbrev pub action_text : Action → String
action_text Action.buy = "BUY"
action_text Action.sell = "SELL"
action_text Action.release = "RELEASE"
action_text (Action.other s) = s

abbrev pub engine_text : Engine → String
engine_text Engine.macro = "MACRO"
engine_text Engine.micro = "MICRO"
engine_text (Engine.other s) = s

abbrev pub lot_type_text : LotType → String
lot_type_text LotType.dead_stack = "DEAD_STACK"
lot_type_text LotType.floating = "FLOATING"
lot_type_text (LotType.other s) = s

module _ {R : Type 0} where
  -- A field with `omitempty`.
  abbrev pub optional : String → String → Fields R → Fields R
  optional k s rest = if str_eq s "" then rest else field k (str s) rest

  -- `TradeCommand`, as it is marshalled.
  unfoldable pub write_command : TradeCommand → Json R
  write_command c = obj (
      field "client_order_id" (str c.client_order_id) (
        field "action" (str (action_text c.action)) (
          field "engine" (str (engine_text c.engine)) (
            field "symbol" (str c.symbol) (
              optional "amount_usdt" c.amount_usdt (
                optional "qty_asset" c.qty_asset
                  (field "lot_type" (str (lot_type_text c.lot_type)) end)))))))

  -- `wsEnvelope` of a command.
  unfoldable pub command_msg : TradeCommand → Json R
  command_msg c = obj (field "type" (str "command") (field "payload" (write_command c) end))
