-- ===== src/Examples/Server.antt =====
-- Runs of the server: instances, ticks and agent reports.
use trandingnok.Base.{
  arith, ◌++◌, Bool, ◌≡◌, refl, ◌⊎◌, true, false, Option, some, none, List, [], ◌∷◌, String, length,
  pos,
}
use trandingnok.Float.Fixed.{Fixed, Fixed-IsOrdered, fixed_float}
use trandingnok.Float.{lit}
use trandingnok.Examples.Sample.{dec, bar_at}
use trandingnok.Quant.Macro.{macro_buy}
use trandingnok.Strategy.SigmoidDca.{release_intent}
use trandingnok.Saas.Store.{
  running, deleted, StrategyInstance, PortfolioRow, SpotExecution, pending, Db,
}
use trandingnok.Saas.Hub.{Hub, load_conn, send_to_agent, register, leave}
use trandingnok.Saas.Hub.Replaced.{register-leave}
use trandingnok.Saas.Lifecycle.{start, stop, mark_error, run_ops}
use trandingnok.Saas.Lifecycle.Moves.{Rows, StaysDead, run_ops-StaysDead}
use trandingnok.Saas.Ledger.{Faults, handle_release}
use trandingnok.Saas.Ledger.Audited.{Released, Skipped, handle_release-Released}
use trandingnok.Saas.Dispatch.{World}
use trandingnok.Saas.Load.{TickFaults, Feed, not_found}
use trandingnok.Strategy.Types.{Strategy}
use trandingnok.Saas.Load.{load_or_create_portfolio, load_champion_params}
use trandingnok.Saas.Dispatch.{dispatch_command, intent_to_command}
use trandingnok.Saas.Tick.{
  tick, tick_body, run_tick, decide, upsert_runtime, book_releases, dispatch_all, advance,
}
use trandingnok.Saas.Tick.Once.{tick-once}
use trandingnok.Saas.DeltaReport.{
  DeltaReport, ExecutionMsg, StoredCommand, Call, process_delta_report, settle, apply_fill,
  conclude, write_audit, update_balances, insert_trade, report_body,
}
use trandingnok.Saas.DeltaReport.Idempotent.{SameLedger, process_delta_report-SameLedger}
use trandingnok.Saas.Booking.{Booked}
use trandingnok.Saas.Booking.Known.{is_known, sent_of}
use trandingnok.Saas.Booking.Resent.{after_all-IsQuiet}
use trandingnok.Saas.Booking.Events.{Event, ticked, reported, after_all, after_all-Booked}

abbrev pub instance_7 : StrategyInstance
instance_7 = record {
  id = 7;
  user_id = 1;
  template_id = 1;
  symbol = "BTC/USDT";
  interval = "1min";
  status = running;
  param_pack = "{}";
}

run_ops-StaysDead_example :
    let is = record instance_7 { status = deleted } ∷ [] in
    Rows StaysDead is (run_ops (start false 7 ∷ stop false 7 ∷ mark_error false 7 ∷ []) is)
run_ops-StaysDead_example =
    run_ops-StaysDead (start false 7 ∷ stop false 7 ∷ mark_error false 7 ∷ [])
      (record instance_7 { status = deleted } ∷ [])

abbrev pub order : SpotExecution
order = record {
  id = 1;
  instance_id = 7;
  client_order_id = "inst7-MACRO-1";
  status = pending;
  raw_payload = "cmd";
}

abbrev pub row : PortfolioRow Fixed
row = record {
  instance_id = 7;
  usdt_balance = dec 1000;
  dead_btc = dec 4;
  float_btc = dec 2;
  cold_sealed_btc = dec 0;
  total_equity = dec 0;
  last_processed_bar_time = none;
}

abbrev pub tables : Db Fixed
tables = record {
  instances = instance_7 ∷ [];
  portfolios = row ∷ [];
  runtimes = [];
  executions = order ∷ [];
  trades = [];
  audits = [];
}

abbrev healthy : Faults
healthy = record { load = false; save = false; audit = false }

handle_release-Released_example :
    let e = handle_release healthy 7 (release_intent (dec 9)) tables in
    (Skipped healthy 7 (release_intent (dec 9)) tables × (e ≡ tables))
    ⊎ Released 7 (release_intent (dec 9)) tables e
handle_release-Released_example =
    handle_release-Released Fixed-IsOrdered healthy 7 (release_intent (dec 9)) tables refl
      (refl, tt)

abbrev pub no_faults : TickFaults
no_faults = record {
  find_portfolio = false;
  create_portfolio = false;
  find_runtime = false;
  save_runtime = false;
  release = λ n. healthy;
  dispatch = λ n. false;
  advance = false;
  mark_error = false;
}

abbrev pub feed : Feed Fixed
feed = record {
  bars = some (bar_at 0 100 ∷ bar_at 1 110 ∷ []);
  cached_champion = λ id. none;
  stored_champion = λ id. not_found;
  now_ms = pos 1;
  online = true;
  codec = record { marshal = λ pp. ""; unmarshal = λ raw. none };
  printer = record {
    order_id = λ id engine ms. "inst7-MACRO-2";
    fixed2 = λ x. "";
    fixed8 = λ x. "";
    marshal = λ cmd. "cmd";
  };
  marshal_runtime = λ rt. "{}";
  unmarshal_runtime = λ raw. none;
}

abbrev pub world : World Fixed
world = record { db = tables; sent = [] }

-- A strategy that buys on every bar.
abbrev pub buyer : Strategy Fixed
buyer i = record { intents = macro_buy (dec 50) ∷ []; runtime = i.runtime }

abbrev ticked_world : World Fixed
ticked_world = (tick buyer no_faults feed instance_7 world).0

tick_ok : tick buyer no_faults feed instance_7 world ≡ (ticked_world, false)
unfolding tick tick_body run_tick decide load_or_create_portfolio load_champion_params
tick_ok = refl

-- The first tick sends one order.
sent_once : length ticked_world.sent ≡ 1
unfolding tick tick_body run_tick decide load_or_create_portfolio load_champion_params
    upsert_runtime book_releases dispatch_all dispatch_command intent_to_command advance
sent_once = refl

tick-once_example :
    tick buyer no_faults (record feed { now_ms = pos 2 }) instance_7 ticked_world
    ≡ (ticked_world, false)
tick-once_example =
    tick-once buyer no_faults no_faults feed (record feed { now_ms = pos 2 }) instance_7 world
      ticked_world refl refl tick_ok

abbrev fill_msg : ExecutionMsg Fixed
fill_msg = record {
  client_order_id = "inst7-MACRO-1";
  filled_qty = lit 5 1;
  filled_price = dec 100;
  fee = dec 0;
}

abbrev report : DeltaReport Fixed
report = record { execution = some fill_msg; balances = [] }

abbrev pub decode : String → Option StoredCommand
decode raw =
    some (record { action = "BUY"; engine = "MACRO"; symbol = "BTC/USDT"; lot_type = "DEAD_STACK" })

abbrev no_failure : Call → Bool
no_failure c = false

abbrev booked : Db Fixed
booked = (process_delta_report decode no_failure 1 report tables).0

report_ok : process_delta_report decode no_failure 1 report tables ≡ (booked, false)
unfolding process_delta_report report_body apply_fill settle conclude write_audit update_balances
    insert_trade
report_ok = refl

process_delta_report-SameLedger_example :
    SameLedger booked (process_delta_report decode no_failure 1 report booked).0
process_delta_report-SameLedger_example =
    process_delta_report-SameLedger decode no_failure no_failure 1 1 report report fill_msg fill_msg
      tables booked (tt, tt) refl refl refl refl report_ok

abbrev events : List (Event Fixed)
events =
    ticked no_faults feed instance_7
    ∷ reported no_failure 1 report
    ∷ reported no_failure 1 report
    ∷ []

after_all-Booked_example : Booked (after_all buyer decode events world).db
after_all-Booked_example =
    after_all-Booked buyer decode events world (record { distinct = (tt, tt); settled = tt })

after_all-IsQuiet_example :
    let w' = after_all buyer decode events world in
    (is_known "inst7-MACRO-1" w'.db.executions ≡ true)
    × (sent_of "inst7-MACRO-1" w'.sent ≡ sent_of "inst7-MACRO-1" world.sent)
after_all-IsQuiet_example = after_all-IsQuiet "inst7-MACRO-1" buyer decode events world refl

register-leave_example :
    let hub : Hub = record { conns = (2, 20) ∷ []; closed = [] } in
    let both = register 1 11 (register 1 10 hub) in
    (send_to_agent (λ c. true) 1 both ≡ (both, true))
    × (both.closed ≡ (register 1 10 hub).closed ++ (10 ∷ []))
    × (load_conn 2 both.conns ≡ load_conn 2 hub.conns)
    × (send_to_agent (λ c. true) 1 (leave 1 10 both) ≡ (leave 1 10 both, false))
register-leave_example =
    register-leave (λ c. true) 1 2 10 11 (record { conns = (2, 20) ∷ []; closed = [] })
      (λ e. absurd (omega arith)) refl
