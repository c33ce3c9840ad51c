-- ===== src/Saas/Hub/Handler.antt =====
-- internal/saas/ws/hub.go: the handler of an agent's connection.
use trandingnok.Base.{
  ℕ, ◌+◌, Bool, true, false, Option, none, some, List, [], ◌∷◌, ◌++◌, String, if◌then◌else◌, length,
}
use trandingnok.Float.{Float64, nought}
use trandingnok.Json.{Json, bool, str, obj, end, field, get, fields_of, string_of, num_of, list_of}
use text.Mathlib.Text.{◌==◌ as str_eq}
use trandingnok.Ga.Engine.{◌>>=◌}
use trandingnok.Saas.Store.{Db}
use trandingnok.Saas.Hub.{Hub, register, leave}
use trandingnok.Saas.DeltaReport.{
  ExecutionMsg, BalanceMsg, DeltaReport, StoredCommand, Call, process_delta_report,
}

module _ {R : Type 0} where
  -- `envelope`: a nil payload is left out.
  unfoldable pub envelope : String → Option (Json R) → Json R
  envelope ty none = obj (field "type" (str ty) end)
  envelope ty (some payload) = obj (field "type" (str ty) (field "payload" payload end))

  -- The envelope of an `authResultPayload`.
  unfoldable pub auth_result : Bool → Json R
  auth_result success = envelope "auth_result" (some (obj (field "success" (bool success) end)))

  -- `authMsg` of type auth: its token.
  unfoldable pub read_auth : Json R → Option String
  read_auth raw = do
    fs ← fields_of raw
    ty ← string_of (get "type" fs)
    token ← string_of (get "token" fs)
    if str_eq ty "auth" then some token else none

  -- `inboundMsg`: the type and the raw payload.
  unfoldable pub read_inbound : Json R → Option (String × Option (Json R))
  read_inbound raw = do
    fs ← fields_of raw
    ty ← string_of (get "type" fs)
    some (ty, get "payload" fs)

module _ {R : Type 0} ⦃f : Float64 R⦄ where
  -- `executionMsg`, `balanceMsg` and `deltaReportPayload`.
  unfoldable pub read_execution : Json R → Option (ExecutionMsg R)
  read_execution raw = do
    fs ← fields_of raw
    id ← string_of (get "client_order_id" fs)
    qty ← num_of nought (get "filled_qty" fs)
    price ← num_of nought (get "filled_price" fs)
    fee ← num_of nought (get "fee" fs)
    some (record { client_order_id = id; filled_qty = qty; filled_price = price; fee = fee })

  unfoldable pub read_balance : Json R → Option (BalanceMsg R)
  read_balance raw = do
    fs ← fields_of raw
    asset ← string_of (get "asset" fs)
    available ← num_of nought (get "available" fs)
    frozen ← num_of nought (get "frozen" fs)
    some (record { asset = asset; available = available; frozen = frozen })

  -- A pointer field: a missing key and null are nil.
  unfoldable pub read_pointer : Option (Json R) → Option (Option (ExecutionMsg R))
  read_pointer none = some none
  read_pointer (some Json.null) = some none
  read_pointer (some v) = read_execution v >>= λ x. some (some x)

  unfoldable pub read_report : Json R → Option (DeltaReport R)
  read_report raw = do
    fs ← fields_of raw
    execution ← read_pointer (get "execution" fs)
    balances ← list_of read_balance (get "balances" fs)
    some (record { execution = execution; balances = balances })

-- What the handler changes beside the registry: the tables, and the messages that it wrote to its
-- connection, oldest first. `reports` counts the reports that it applied.
pub record Session (R : Type 0) : Type 0 where
  pub db : Db R
  pub written : List (Json R)
  pub reports : ℕ

-- What the handler asks of the world: whether its n-th write succeeds, the user of a token, the
-- database's answers to the calls of the n-th report, and the form of a stored command.
pub record Peer : Type 0 where
  pub writes : ℕ → Bool
  pub parse_token : String → Option ℕ
  pub fails : ℕ → Call → Bool
  pub decode : String → Option StoredCommand

module _ {R : Type 0} ⦃f : Float64 R⦄ (peer : Peer) where
  -- `writeRaw`: the new state, and whether the write succeeded.
  unfoldable pub write_raw : Json R → Session R → Session R × Bool
  write_raw m s =
      if peer.writes (length s.written)
      then (record s { written = s.written ++ (m ∷ []) }, true)
      else (s, false)

  -- The case of a delta report: an error of the processing is logged, and acknowledged too.
  unfoldable pub handle_report : ℕ → DeltaReport R → Session R → Session R × Bool
  handle_report user_id report s = write_raw (envelope "report_ack" none) (record s {
    db = (process_delta_report peer.decode (peer.fails s.reports) user_id report s.db).0;
    reports = s.reports + 1;
  })

  -- One message, none if it is no JSON: the new state, and whether the loop goes on.
  unfoldable pub handle_message : ℕ → Option (Json R) → Session R → Session R × Bool
  handle_message user_id none s = (s, true)
  handle_message user_id (some raw) s = elim (read_inbound raw) [
    | none ↦ (s, true)
    | some (ty, payload) ↦
        let report : Session R × Bool = elim (payload >>= read_report) [
          | none ↦ (s, true)
          | some r ↦ handle_report user_id r s
        ] in
        if str_eq ty "heartbeat"
        then write_raw (envelope "heartbeat_ack" none) s
        else if str_eq ty "delta_report"
        then report
        else (s, true)
  ]

  -- The message loop, on the messages that arrive before the connection ends.
  unfoldable pub message_loop : ℕ → List (Option (Json R)) → Session R → Session R
  message_loop user_id [] s = s
  message_loop user_id (m ∷ ms) s =
      let (s', more) = handle_message user_id m s in
      let rest = message_loop user_id ms s' in if more then rest else s'

  -- Steps 3 to 6, for a user whose token is valid, on connection `c`.
  unfoldable pub serve : ℕ → ℕ → List (Option (Json R)) → Hub → Session R → Hub × Session R
  serve user_id c ms hub s =
      let (s', more) = write_raw (auth_result true) s in
      let rest = message_loop user_id ms s' in
      (leave user_id c (register user_id c hub), if more then rest else s')

  -- Without a valid auth message the connection is told so and closed; the result of the write is
  -- not looked at.
  unfoldable pub refuse : ℕ → Hub → Session R → Hub × Session R
  refuse c hub s =
      (record hub { closed = hub.closed ++ (c ∷ []) }, (write_raw (auth_result false) s).0)

  -- `HandleConnection`, from the upgrade on. The first message must come within ten seconds.
  unfoldable pub handle_connection : ℕ → List (Option (Json R)) → Hub → Session R → Hub × Session R
  handle_connection c [] hub s = (record hub { closed = hub.closed ++ (c ∷ []) }, s)
  handle_connection c (first ∷ ms) hub s = elim (first >>= read_auth >>= peer.parse_token) [
    | none ↦ refuse c hub s
    | some user_id ↦ serve user_id c ms hub s
  ]
