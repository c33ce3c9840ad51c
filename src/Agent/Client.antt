-- ===== src/Agent/Client.antt =====
-- internal/agent/ws/client.go: the agent's connection to the server.
pub mod Backoff
use trandingnok.Base.{
  ◌&&◌, ◌==◌, ℕ, ◌*◌, Bool, true, false, Option, none, some, List, [], ◌∷◌, ◌++◌, String, ltb,
  if◌then◌else◌,
}
use trandingnok.Float.{Float64}
use trandingnok.Json.{
  Json, null, write_num, str, arr, obj, end, field, get, fields_of, string_of, bool_of, items,
}
use text.Mathlib.Text.{◌==◌ as str_eq}
use trandingnok.Ga.Engine.{◌>>=◌}
use trandingnok.Agent.Exchange.{
  Command, Execution, Balance, Market, Placed, filled, failed, place_order, get_balances,
}

module _ {R : Type 0} where
  -- `authMsg`, `basicMsg` and `commandAckMsg`.
  unfoldable pub auth_msg : String → Json R
  auth_msg token = obj (field "type" (str "auth") (field "token" (str token) end))

  unfoldable pub basic_msg : String → Json R
  basic_msg ty = obj (field "type" (str ty) end)

  unfoldable pub command_ack_msg : String → Json R
  command_ack_msg id = obj (field "type" (str "command_ack") (field "client_order_id" (str id) end))

  -- `authResultMsg`: the type, and `success` beside it.
  unfoldable pub read_auth_result : Json R → Option (String × Bool)
  read_auth_result raw = do
    fs ← fields_of raw
    ty ← string_of (get "type" fs)
    success ← bool_of (get "success" fs)
    some (ty, success)

  -- `inboundMsg`.
  unfoldable pub read_inbound : Json R → Option (String × Option (Json R))
  read_inbound raw = do
    fs ← fields_of raw
    ty ← string_of (get "type" fs)
    some (ty, get "payload" fs)

  -- `exchange.TradeCommand`.
  unfoldable pub read_command : Json R → Option Command
  read_command raw = do
    fs ← fields_of raw
    id ← string_of (get "client_order_id" fs)
    action ← string_of (get "action" fs)
    engine ← string_of (get "engine" fs)
    symbol ← string_of (get "symbol" fs)
    amount ← string_of (get "amount_usdt" fs)
    qty ← string_of (get "qty_asset" fs)
    lot ← string_of (get "lot_type" fs)
    some (record {
      client_order_id = id;
      action = action;
      engine = engine;
      symbol = symbol;
      amount_usdt = amount;
      qty_asset = qty;
      lot_type = lot;
    })

module _ {R : Type 0} ⦃f : Float64 R⦄ where
  unfoldable pub write_execution : Execution R → Option (Json R)
  write_execution e = do
    qty ← write_num e.filled_qty
    price ← write_num e.filled_price
    fee ← write_num e.fee
    some (
        obj (
          field "client_order_id" (str e.client_order_id)
            (field "filled_qty" qty (field "filled_price" price (field "fee" fee end)))))

  unfoldable pub write_balance : Balance R → Option (Json R)
  write_balance b = do
    available ← write_num b.available
    frozen ← write_num b.frozen
    some (
        obj (field "asset" (str b.asset) (field "available" available (field "frozen" frozen end))))

  abbrev pub write_pointer : Option (Execution R) → Option (Json R)
  write_pointer none = some null
  write_pointer (some e) = write_execution e

  -- A nil slice is written as null.
  abbrev pub write_balances : Option (List (Balance R)) → Option (Json R)
  write_balances none = some null
  write_balances (some bs) = items write_balance bs >>= (λ vs. some (arr vs))

  -- `buildDeltaReport`, as `mustMarshal` writes it: the error of a value that is not finite is
  -- dropped and the message is empty, which is no JSON, none.
  unfoldable pub build_delta_report :
      Option (Execution R) → Option (List (Balance R)) → Option (Json R)
  build_delta_report exec balances = do
    execution ← write_pointer exec
    available ← write_balances balances
    some (
        obj (
          field "type" (str "delta_report") (
            field "payload" (obj (field "execution" execution (field "balances" available end)))
              end)))

-- The waits of the reconnect loop, in seconds.
abbrev pub max_backoff : ℕ
max_backoff = 5 * 60

unfoldable pub next_backoff : ℕ → ℕ
next_backoff backoff =
    let doubled = backoff * 2 in if ltb max_backoff doubled then max_backoff else doubled

-- What the loop of `Run` does: `session` tells nothing that it uses, so a run is the list of waits
-- before the context is cancelled, in the n-th turn before its session, after it, or in its wait.
pub data Turn : Type 0 where
  cancelled_before : Turn
  cancelled_after : Turn
  cancelled_waiting : Turn
  waited : Turn

unfoldable pub run_waits : ℕ → List Turn → List ℕ
run_waits backoff [] = []
run_waits backoff (waited ∷ ts) = backoff ∷ run_waits (next_backoff backoff) ts
run_waits backoff (cancelled_waiting ∷ ts) = backoff ∷ []
run_waits backoff (_ ∷ ts) = []

-- What a session does: whether it was accepted, the messages that its main goroutine sends, in
-- order, and the commands that it hands to goroutines. An accepted session also sends a report of
-- the balances, and a heartbeat every 30 seconds.
pub record Session (R : Type 0) : Type 0 where
  pub accepted : Bool
  pub sent : List (Json R)
  pub started : List Command

-- The answer to the login, none for an error of the request.
pub record LoginResp (R : Type 0) : Type 0 where
  pub status : ℕ
  pub body : Option (Json R)

module _ {R : Type 0} where
  abbrev pub exec_of : Placed R → Option (Execution R)
  exec_of (filled e) = some e
  exec_of failed = none

  -- `login`: the token.
  unfoldable pub login : Option (LoginResp R) → Option String
  login answer = do
    resp ← answer
    raw ← if resp.status == 200 then resp.body else none
    fs ← fields_of raw
    token ← string_of (get "token" fs)
    if str_eq token "" then none else some token

  -- The answer to the auth message that lets a session go on.
  unfoldable pub is_accepted : Option (Json R) → Bool
  is_accepted m = elim (m >>= read_auth_result) [
    | none ↦ false
    | some (ty, success) ↦ str_eq ty "auth_result" && success
  ]

  -- The command in a message, none if it is no JSON or no well-formed command.
  unfoldable pub command_in : Option (Json R) → Option Command
  command_in m = elim (m >>= read_inbound) [
    | none ↦ none
    | some (ty, payload) ↦ if str_eq ty "command" then payload >>= read_command else none
  ]

  abbrev pub start : Command → Session R → Session R
  start cmd s = record s {
    sent = s.sent ++ (command_ack_msg cmd.client_order_id ∷ []);
    started = s.started ++ (cmd ∷ []);
  }

  -- `readLoop`, on the messages that arrive before the connection ends: a command is acknowledged
  -- at once and handed to a goroutine.
  unfoldable pub read_loop : List (Option (Json R)) → Session R → Session R
  read_loop [] s = s
  read_loop (m ∷ ms) s = read_loop ms (elim (command_in m) [ none ↦ s | some cmd ↦ start cmd s ])

  -- `session`, from the answer to the login, whether the dial succeeds, and the messages that
  -- arrive; the auth_result must come within 15 seconds.
  unfoldable pub session : Option (LoginResp R) → Bool → List (Option (Json R)) → Session R
  session answer dials reads =
      let idle : Session R = record { accepted = false; sent = []; started = [] } in
      elim (login answer) [
        | none ↦ idle
        | some token ↦
            let asked : Session R = record idle { sent = auth_msg token ∷ [] } in
            let open_loop : Session R = elim reads [
              | [] ↦ asked
              | m ∷ ms ↦
                  let rest = read_loop ms (record asked { accepted = true }) in
                  if is_accepted m then rest else asked
            ] in
            if dials then open_loop else idle
      ]

module _ {R : Type 0} ⦃f : Float64 R⦄ (market : Market R) where
  -- `executeAndReport`: the report that it sends. After an error the report has no execution, and
  -- balances that cannot be had are nil.
  unfoldable pub execute_and_report : Command → Option (Json R)
  execute_and_report cmd =
      build_delta_report (exec_of (place_order market cmd)) (get_balances market)

  -- The report that an accepted session begins with.
  unfoldable pub initial_report : Option (Json R)
  initial_report = build_delta_report none (get_balances market)
