-- ===== src/Saas/Hub/Replies.antt =====
-- internal/saas/ws/hub.go: what an agent's connection is answered, message by message.
use trandingnok.Base.{
  ℕ, ◌+◌, ◌≡◌, refl, ◌∙◌, inl, inr, true, Option, none, some, List, [], ◌∷◌, ◌++◌, String,
  if◌then◌else◌, length, Bool-cases, Option-cases,
}
use mathlib.Core.List.{append_assoc, append-nil}
use trandingnok.Float.{Float64}
use trandingnok.Json.{Json}
use text.Mathlib.Text.{◌==◌ as str_eq}
use trandingnok.Ga.Engine.{◌>>=◌}
use trandingnok.Saas.Store.{Db}
use trandingnok.Saas.Hub.{Hub, load_conn, register, leave}
use trandingnok.Saas.Hub.Replaced.{load-delete_conn}
use trandingnok.Saas.DeltaReport.{DeltaReport, process_delta_report}
use trandingnok.Saas.Hub.Handler.{
  Session, Peer, envelope, auth_result, read_auth, read_inbound, read_report, write_raw,
  handle_report, handle_message, message_loop, serve, handle_connection,
}

-- The messages that the protocol knows.
pub data Kind (R : Type 0) : Type 0 where
  heartbeat : Kind R
  report : DeltaReport R → Kind R
  ignored : Kind R

module _ {R : Type 0} ⦃f : Float64 R⦄ where
  kind_of_typed : String → Option (Json R) → Kind R
  kind_of_typed ty payload =
      if str_eq ty "heartbeat"
      then heartbeat
      else if str_eq ty "delta_report"
      then (elim (payload >>= read_report) [ none ↦ ignored | some r ↦ report r ])
      else ignored

  unfoldable pub kind_of : Option (Json R) → Kind R
  unfolding kind_of_typed
  kind_of m = elim (m >>= read_inbound) [
    | none ↦ ignored
    | some (ty, payload) ↦ kind_of_typed ty payload
  ]

  abbrev pub ack_of : Kind R → List (Json R)
  ack_of heartbeat = envelope "heartbeat_ack" none ∷ []
  ack_of (report r) = envelope "report_ack" none ∷ []
  ack_of ignored = []

  abbrev pub report_of : Kind R → List (DeltaReport R)
  report_of (report r) = r ∷ []
  report_of _ = []

  -- One acknowledgement for each heartbeat and each report, in order.
  abbrev pub acks : List (Option (Json R)) → List (Json R)
  acks [] = []
  acks (m ∷ ms) = ack_of (kind_of m) ++ acks ms

  abbrev pub reports_in : List (Option (Json R)) → List (DeltaReport R)
  reports_in [] = []
  reports_in (m ∷ ms) = report_of (kind_of m) ++ reports_in ms

  -- The tables after reports, from the n-th on.
  unfoldable pub apply_reports : Peer → ℕ → ℕ → List (DeltaReport R) → Db R → Db R
  apply_reports peer user_id n [] db = db
  apply_reports peer user_id n (r ∷ rs) db =
      apply_reports peer user_id (n + 1) rs
        (process_delta_report peer.decode (peer.fails n) user_id r db).0

  module _ (peer : Peer) (sends : (n : ℕ) → peer.writes n ≡ true) where
    write_raw_lem :
        (m : Json R) (s : Session R)
        → write_raw peer m s ≡ (record s { written = s.written ++ (m ∷ []) }, true)
    unfolding write_raw
    write_raw_lem m s = rw (sends (length s.written))

    -- What a message of a kind does.
    unfoldable pub act : ℕ → Kind R → Session R → Session R
    act user_id heartbeat s = record s {
      written = s.written ++ (envelope "heartbeat_ack" none ∷ []);
    }
    act user_id (report r) s = record s {
      db = (process_delta_report peer.decode (peer.fails s.reports) user_id r s.db).0;
      written = s.written ++ (envelope "report_ack" none ∷ []);
      reports = s.reports + 1;
    }
    act user_id ignored s = s

    handle_report_lem :
        (user_id : ℕ) (r : DeltaReport R) (s : Session R)
        → handle_report peer user_id r s ≡ (act user_id (report r) s, true)
    unfolding handle_report act
    handle_report_lem user_id r s = write_raw_lem (envelope "report_ack" none) _

    pub handle_message_lem :
        (user_id : ℕ) (m : Option (Json R)) (s : Session R)
        → handle_message peer user_id m s ≡ (act user_id (kind_of m) s, true)
    unfolding handle_message kind_of act
    handle_message_lem user_id none s = refl
    handle_message_lem user_id (some raw) s = elim (Option-cases (read_inbound raw)) [
      | inl bad ↦ rw (bad, handle_message, kind_of) refl
      | inr ((ty, payload), typed) ↦ elim (Bool-cases (str_eq ty "heartbeat")) [
        | inl beat ↦
            rw (typed, handle_message, kind_of, beat)
              (write_raw_lem (envelope "heartbeat_ack" none) s)
        | inr no_beat ↦ elim (Bool-cases (str_eq ty "delta_report")) [
          | inl delta ↦ elim (Option-cases (payload >>= read_report)) [
            | inl bad ↦ rw (typed, handle_message, kind_of, no_beat, delta, bad) refl
            | inr (r, read) ↦
                rw (typed, handle_message, kind_of, no_beat, delta, read)
                  (handle_report_lem user_id r s)
          ]
          | inr no_delta ↦ rw (typed, handle_message, kind_of, no_beat, no_delta) refl
        ]
      ]
    ]

    -- What a loop over messages adds.
    Adds : ℕ → List (Option (Json R)) → Session R → Session R → Type 0
    Adds user_id ms s s' =
        (s'.written ≡ s.written ++ acks ms)
        × (s'.db ≡ apply_reports peer user_id s.reports (reports_in ms) s.db)

    act-Adds :
        (user_id : ℕ) (k : Kind R) (m : Option (Json R)) (ms : List (Option (Json R)))
        (s s' : Session R)
        → kind_of m ≡ k
        → Adds user_id ms (act user_id k s) s'
        → Adds user_id (m ∷ ms) s s'
    unfolding act Adds apply_reports
    act-Adds user_id heartbeat m ms s s' e (w, d) = rw e (w ∙ append_assoc s.written _ _, d)
    act-Adds user_id (report r) m ms s s' e (w, d) = rw e (w ∙ append_assoc s.written _ _, d)
    act-Adds user_id ignored m ms s s' e (w, d) = rw e (w, d)

    message_loop-Adds :
        (user_id : ℕ) (ms : List (Option (Json R))) (s : Session R)
        → Adds user_id ms s (message_loop peer user_id ms s)
    unfolding message_loop Adds apply_reports
    message_loop-Adds user_id [] s = (rw append-nil, refl)
    message_loop-Adds user_id (m ∷ ms) s =
        let here = handle_message_lem user_id m s in
        let rest = message_loop-Adds user_id ms (act user_id (kind_of m) s) in
        act-Adds user_id (kind_of m) m ms s (message_loop peer user_id (m ∷ ms) s) refl
          (rw (here, message_loop) rest)

    -- Where every write succeeds, an agent that sends a valid token is answered its auth_result,
    -- and then exactly one acknowledgement for each heartbeat and each well-formed report, in
    -- order, even if the processing of a report fails; its reports are applied in that order, and
    -- nothing else changes the tables. At the end no connection of the user is registered, and the
    -- connection is closed.
    pub handle_connection-acks :
        (c user_id : ℕ) (first : Option (Json R)) (ms : List (Option (Json R))) (hub : Hub)
        (db : Db R)
        → (first >>= read_auth >>= peer.parse_token) ≡ some user_id
        → let end =
            handle_connection peer c
              (first ∷ ms)
              hub
              (record { db = db; written = []; reports = 0 }) in
          (end.1.written ≡ auth_result true ∷ acks ms)
          × (end.1.db ≡ apply_reports peer user_id 0 (reports_in ms) db)
          × (load_conn user_id end.0.conns ≡ none)
          × (end.0.closed ≡ (register user_id c hub).closed ++ (c ∷ []))
    unfolding handle_connection serve leave Adds
    handle_connection-acks c user_id first ms hub db e =
        let s : Session R = record { db = db; written = []; reports = 0 } in
        let hello = write_raw_lem (auth_result true) s in
        let s1 : Session R = record s { written = auth_result true ∷ [] } in
        let (w, d) = message_loop-Adds user_id ms s1 in
        let gone = load-delete_conn user_id (register user_id c hub).conns in
        rw (e, handle_connection, hello) (w, d, gone, refl)
