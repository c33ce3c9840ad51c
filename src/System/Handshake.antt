-- ===== src/System/Handshake.antt =====
-- The answer to an agent's auth message: internal/saas/ws/hub.go against internal/agent/ws.
use trandingnok.Base.{
  ℕ, ◌≡◌, refl, inl, inr, Bool, true, false, Option, none, some, List, [], ◌∷◌, ◌++◌, map,
  Bool-cases, Option-cases, length, All, All-append,
}
use trandingnok.Float.{Float64}
use trandingnok.Json.{Json}
use text.Mathlib.Text.{◌==◌ as str_eq}
use trandingnok.Ga.Engine.{◌>>=◌}
use trandingnok.Saas.Hub.{Hub}
use trandingnok.Saas.DeltaReport.{DeltaReport}
use trandingnok.Saas.Dispatch.{TradeCommand}
use trandingnok.Saas.Dispatch.Envelope.{command_msg}
use trandingnok.Saas.Hub.Handler.{
  Session as ServerSession, Peer, envelope, auth_result, read_auth, read_inbound, read_report,
  write_raw, handle_report, handle_message, message_loop, serve, refuse, handle_connection,
}
use trandingnok.Agent.Client.{LoginResp, Session, read_auth_result, login, is_accepted, session}

module _ {R : Type 0} where
  -- The messages that the server writes to an agent's connection.
  pub data ServerMsg (m : Json R) : Type 0 where
    auth : (b : Bool) → m ≡ auth_result b → ServerMsg m
    heartbeat_ack : m ≡ envelope "heartbeat_ack" none → ServerMsg m
    report_ack : m ≡ envelope "report_ack" none → ServerMsg m
    command : (c : TradeCommand) → m ≡ command_msg c → ServerMsg m

  is_accepted-ServerMsg : (m : Json R) → ServerMsg m → is_accepted (some m) ≡ false
  unfolding is_accepted read_auth_result auth_result envelope command_msg
  is_accepted-ServerMsg m (auth b e) = rw e refl
  is_accepted-ServerMsg m (heartbeat_ack e) = rw e refl
  is_accepted-ServerMsg m (report_ack e) = rw e refl
  is_accepted-ServerMsg m (command c e) = rw e refl

  -- A session that is not accepted and starts no command.
  abbrev pub IsRejected : Session R → Type 0
  IsRejected s = (s.accepted ≡ false) × (s.started ≡ [])

  session-IsRejected :
      (answer : Option (LoginResp R)) (dials : Bool) (ms : List (Json R))
      → All ServerMsg ms
      → IsRejected (session answer dials (map some ms))
  unfolding session
  session-IsRejected answer false ms h = elim (Option-cases (login answer)) [
    | inl bad ↦ rw (bad, session) (refl, refl)
    | inr (token, ok) ↦ rw (ok, session) (refl, refl)
  ]
  session-IsRejected answer true [] h = elim (Option-cases (login answer)) [
    | inl bad ↦ rw (bad, session) (refl, refl)
    | inr (token, ok) ↦ rw (ok, session) (refl, refl)
  ]
  session-IsRejected answer true (m ∷ ms) (k, h) = elim (Option-cases (login answer)) [
    | inl bad ↦ rw (bad, session) (refl, refl)
    | inr (token, ok) ↦ rw (ok, session, is_accepted-ServerMsg m k) (refl, refl)
  ]

command_msg-ServerMsg :
    (R : Type 0) (cs : List TradeCommand) → All (ServerMsg {R = R}) (map command_msg cs)
command_msg-ServerMsg R [] = tt
command_msg-ServerMsg R (c ∷ cs) = (command c refl, command_msg-ServerMsg R cs)

module _ {R : Type 0} ⦃f : Float64 R⦄ (peer : Peer) where
  write_raw-ServerMsg :
      (m : Json R) (s : ServerSession R)
      → ServerMsg m
      → All ServerMsg s.written
      → All ServerMsg (write_raw peer m s).0.written
  unfolding write_raw
  write_raw-ServerMsg m s k h = elim (Bool-cases (peer.writes (length s.written))) [
    | inl sent ↦ rw sent (All-append ServerMsg s.written (m ∷ []) h (k, tt))
    | inr lost ↦ rw lost h
  ]

  handle_report-ServerMsg :
      (user_id : ℕ) (r : DeltaReport R) (s : ServerSession R)
      → All ServerMsg s.written
      → All ServerMsg (handle_report peer user_id r s).0.written
  unfolding handle_report
  handle_report-ServerMsg user_id r s h =
      write_raw-ServerMsg (envelope "report_ack" none) _ (report_ack refl) h

  handle_message-ServerMsg :
      (user_id : ℕ) (m : Option (Json R)) (s : ServerSession R)
      → All ServerMsg s.written
      → All ServerMsg (handle_message peer user_id m s).0.written
  unfolding handle_message
  handle_message-ServerMsg user_id none s h = h
  handle_message-ServerMsg user_id (some raw) s h = elim (Option-cases (read_inbound raw)) [
    | inl bad ↦ rw (bad, handle_message) h
    | inr ((ty, payload), typed) ↦ elim (Bool-cases (str_eq ty "heartbeat")) [
      | inl beat ↦
          rw (typed, handle_message, beat)
            (write_raw-ServerMsg (envelope "heartbeat_ack" none) s (heartbeat_ack refl) h)
      | inr no_beat ↦ elim (Bool-cases (str_eq ty "delta_report")) [
        | inl delta ↦ elim (Option-cases (payload >>= read_report)) [
          | inl bad ↦ rw (typed, handle_message, no_beat, delta, bad) h
          | inr (r, read) ↦
              rw (typed, handle_message, no_beat, delta, read)
                (handle_report-ServerMsg user_id r s h)
        ]
        | inr no_delta ↦ rw (typed, handle_message, no_beat, no_delta) h
      ]
    ]
  ]

  message_loop-ServerMsg :
      (user_id : ℕ) (ms : List (Option (Json R))) (s : ServerSession R)
      → All ServerMsg s.written
      → All ServerMsg (message_loop peer user_id ms s).written
  unfolding message_loop
  message_loop-ServerMsg user_id [] s h = h
  message_loop-ServerMsg user_id (m ∷ ms) s h =
      let (s', more) = handle_message peer user_id m s in
      let here = handle_message-ServerMsg user_id m s h in
      let rest = message_loop-ServerMsg user_id ms s' here in
      elim (Bool-cases more) [ inl on ↦ rw on rest | inr off ↦ rw off here ]

  handle_connection-ServerMsg :
      (c : ℕ) (ms : List (Option (Json R))) (hub : Hub) (s : ServerSession R)
      → All ServerMsg s.written
      → All ServerMsg (handle_connection peer c ms hub s).1.written
  unfolding handle_connection serve refuse
  handle_connection-ServerMsg c [] hub s h = h
  handle_connection-ServerMsg c (first ∷ ms) hub s h =
      elim (Option-cases (first >>= read_auth >>= peer.parse_token)) [
        | inl bad ↦
            rw (bad, handle_connection)
              (write_raw-ServerMsg (auth_result false) s (auth false refl) h)
        | inr (user_id, known) ↦
            let hello = write_raw-ServerMsg (auth_result true) s (auth true refl) h in
            let rest =
              message_loop-ServerMsg user_id ms (write_raw peer (auth_result true) s).0 hello in
            rw (known, handle_connection)
              (elim (Bool-cases (write_raw peer (auth_result true) s).1) [
                | inl on ↦ rw on rest
                | inr off ↦ rw off hello
              ])
      ]

  -- Whatever the agent sends and whatever commands reach the connection first, a session of the
  -- agent on what the server's handler writes is never accepted and carries out no command, also
  -- where the token is valid: the agent looks for the success of an auth_result beside its type,
  -- and the server writes it into the payload.
  pub session-handle_connection :
      (answer : Option (LoginResp R)) (dials : Bool) (c : ℕ) (ms : List (Option (Json R)))
      (hub : Hub) (s : ServerSession R) (commands : List TradeCommand)
      → s.written ≡ []
      → let written = (handle_connection peer c ms hub s).1.written in
        IsRejected (session answer dials (map some (map command_msg commands ++ written)))
  session-handle_connection answer dials c ms hub s commands fresh =
      let written = (handle_connection peer c ms hub s).1.written in
      session-IsRejected answer dials (map command_msg commands ++ written) (
        All-append ServerMsg (map command_msg commands) written (command_msg-ServerMsg R commands)
          (handle_connection-ServerMsg c ms hub s (rw fresh tt)))
