-- ===== src/Examples/Agents.antt =====
-- Runs of the agent and of the server's end of its connection.
use trandingnok.Base.{
  ℕ, zero, suc, ◌≡◌, refl, true, false, ◌&&◌, ◌-ℤ◌, if◌then◌else◌, Option, some, none, List, [],
  ◌∷◌, ◌++◌, map,
}
use trandingnok.Float.Fixed.{Fixed, fixed_float}
use trandingnok.Float.{lit}
use trandingnok.Examples.Sample.{dec}
use trandingnok.Examples.Server.{instance_7, order, row, tables, feed, world, decode}
use trandingnok.Json.{Json}
use trandingnok.Quant.Data.{Action, Engine, LotType}
use trandingnok.Saas.Dispatch.{TradeCommand}
use trandingnok.Saas.Dispatch.Envelope.{command_msg}
use trandingnok.Saas.DeltaReport.{ExecutionMsg, StoredCommand}
use trandingnok.Saas.Hub.{Hub, load_conn, register}
use trandingnok.Saas.Hub.Handler.{
  Session, Peer, auth_result, read_auth, handle_message, handle_connection,
}
use trandingnok.Saas.Hub.Replies.{
  kind_of, report, ignored, acks, reports_in, apply_reports, handle_connection-acks,
}
use trandingnok.Agent.Exchange.{
  Execution, Balance, Market, OrderInfo, fetch_order_info, order_body, wait_for_fill, zero_fill,
  get_balances, nonzero_balances, is_stopped,
}
use trandingnok.Agent.Exchange.Fill.{Outcome, wait_for_fill-Outcome}
use trandingnok.Agent.Client.{
  auth_msg, basic_msg, LoginResp, session, build_delta_report, execute_and_report,
}
use trandingnok.System.Messages.{
  command_of, delta_report, execution_msg, is_finite_execution, are_finite_balances,
  kind_of-build_delta_report,
}
use trandingnok.System.Filled.{IsSettled}
use trandingnok.Saas.Dispatch.{World, dispatch_command}
use trandingnok.System.Handshake.{IsRejected, session-handle_connection}
use trandingnok.System.Orders.{unfilled-IsSettled}

-- An exchange that answers a query for an order with a status.
abbrev info : OrderInfo
info = record {
  code = "00000";
  status = "full_fill";
  base_volume = "0.5";
  fill_price = "0.5";
  total_deducted_fee = "0.5";
}

abbrev market : Market Fixed
market = record {
  strip_slash = λ s. s;
  post_order = λ body. some (record { code = "00000"; order_id = "77" });
  order_info = λ i id. some info;
  cancelled = λ i. false;
  account_assets = some (record { code = "00000"; assets = [] });
  parse_float = λ s. lit 5 1;
}

abbrev slow_market : Market Fixed
slow_market = record market { order_info = λ i id. some (record info { status = "live" }) }

wait_for_fill-Outcome_example : Outcome market "a" "77" 0 6 (wait_for_fill market "a" "77")
wait_for_fill-Outcome_example = wait_for_fill-Outcome market "a" "77"

abbrev peer : Peer
peer = record {
  writes = λ n. true;
  parse_token = λ token. some 1;
  fails = λ n c. false;
  decode = decode;
}

abbrev hub : Hub
hub = record { conns = (1, 10) ∷ []; closed = [] }

abbrev inbox : List (Option (Json Fixed))
inbox = some (basic_msg "heartbeat") ∷ none ∷ build_delta_report none none ∷ []

handle_connection-acks_example :
    let end =
      handle_connection peer 11
        (some (auth_msg "jwt") ∷ inbox)
        hub
        (record { db = tables; written = []; reports = 0 }) in
    (end.1.written ≡ auth_result true ∷ acks inbox)
    × (end.1.db ≡ apply_reports peer 1 0 (reports_in inbox) tables)
    × (load_conn 1 end.0.conns ≡ none)
    × (end.0.closed ≡ (register 1 11 hub).closed ++ (11 ∷ []))
unfolding auth_msg read_auth
handle_connection-acks_example =
    handle_connection-acks peer (λ n. refl) 11 1 (some (auth_msg "jwt")) inbox hub tables refl

abbrev fill : Execution Fixed
fill = record {
  client_order_id = "inst7-MACRO-1";
  filled_qty = lit 5 1;
  filled_price = lit 5 1;
  fee = lit 5 1;
}

abbrev balances : List (Balance Fixed)
balances = record { asset = "USDT"; available = dec 9; frozen = dec 0 } ∷ []

kind_of-build_delta_report_example : kind_of (build_delta_report (some fill) (some balances)) ≡ (
    if is_finite_execution (some fill) && are_finite_balances (some balances)
    then report (delta_report (some fill) (some balances))
    else ignored)
kind_of-build_delta_report_example = kind_of-build_delta_report (some fill) (some balances)

abbrev command : TradeCommand
command = record {
  client_order_id = "inst7-MACRO-1";
  action = Action.buy;
  engine = Engine.macro;
  symbol = "BTCUSDT";
  amount_usdt = "50.00";
  qty_asset = "";
  lot_type = LotType.dead_stack;
}

abbrev fresh : Session Fixed
fresh = record { db = tables; written = []; reports = 0 }

abbrev answer : Option (LoginResp Fixed)
answer = none

session-handle_connection_example :
    let written = (handle_connection peer 11 (some (auth_msg "jwt") ∷ inbox) hub fresh).1.written in
    IsRejected (session answer true (map some (map command_msg (command ∷ []) ++ written)))
session-handle_connection_example =
    session-handle_connection peer answer true 11 (some (auth_msg "jwt") ∷ inbox) hub fresh
      (command ∷ []) refl

abbrev stored : StoredCommand
stored = record { action = "BUY"; engine = "MACRO"; symbol = "BTC/USDT"; lot_type = "DEAD_STACK" }

-- The command under an id that no execution has.
abbrev next_command : TradeCommand
next_command = record command { client_order_id = "inst7-MACRO-2" }

abbrev next_fill : ExecutionMsg Fixed
next_fill = record {
  client_order_id = "inst7-MACRO-2";
  filled_qty = lit 5 1;
  filled_price = lit 5 1;
  fee = lit 5 1;
}

-- What an agent sends after its auth message.
abbrev reports : List (Option (Json Fixed))
reports =
    some (basic_msg "heartbeat")
    ∷ none
    ∷ build_delta_report (some (record fill { client_order_id = "inst7-MACRO-2" })) (some balances)
    ∷ some (basic_msg "heartbeat")
    ∷ []

abbrev dispatched : World Fixed
dispatched = (dispatch_command feed.printer false true instance_7 next_command world).0

calm : (k : ℕ) → is_stopped slow_market k ≡ false
calm zero = refl
calm (suc k) = refl

unfilled-IsSettled_example :
    let m = execute_and_report slow_market (command_of command) in
    IsSettled order stored
      (execution_msg (zero_fill "inst7-MACRO-1"))
      row
      tables
      (handle_message peer 1 m fresh).0.db
unfolding order_body fetch_order_info ◌-ℤ◌ get_balances nonzero_balances
unfilled-IsSettled_example =
    unfilled-IsSettled peer slow_market 1 command "77" order stored row fresh (λ n. refl)
      (λ k. refl)
      (
        record { symbol = "BTCUSDT"; client_oid = "inst7-MACRO-1"; side = "buy"; size = "50.00" },
        record { code = "00000"; order_id = "77" },
        refl,
        refl,
        refl,
        refl,
      )
      calm (λ k. refl) refl refl
      (record { named = refl; awaited = refl; stored = refl; owned = refl; untraded = refl })
