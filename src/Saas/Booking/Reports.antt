-- ===== src/Saas/Booking/Reports.antt =====
-- internal/saas/ws/portfolio.go: an agent report keeps the invariant of the orders.
use trandingnok.Base.{
  ℕ, ◌≡◌, refl, inl, inr, Bool, Option, some, List, [], ◌∷◌, ◌++◌, arith, String, Bool-cases,
  Option-cases, All-append,
}
use trandingnok.Float.{Float64}
use text.Mathlib.Text.{◌==◌ as str_eq}
use trandingnok.Saas.Store.{SpotExecution, TradeRecord, AuditLog, Db, find_first, awaits}
use trandingnok.Saas.DeltaReport.{
  DeltaReport, ExecutionMsg, BalanceMsg, StoredCommand, Call, insert_trade, settle, conclude,
  write_audit, update_balances, trade_of, audit_of, apply_fill, report_body,
}
use trandingnok.Saas.DeltaReport.Idempotent.{bind_some, settle-mark, update_balances-SameLedger}
use trandingnok.Saas.Booking.{
  Booked, Distinct-mark, has_filled-awaited, All-has_filled-mark, Booked-same,
}

module _ {R : Type 0} ⦃f : Float64 R⦄ where
  -- The trade that a settled fill adds.
  settle-trade :
      (decode : String → Option StoredCommand) (fails : Call → Bool) (x : ExecutionMsg R)
      (e : SpotExecution) (db db' : Db R)
      → settle decode fails x e db ≡ some db'
      → (t : TradeRecord R) × (db'.trades ≡ db.trades ++ (t ∷ []))
        × (t.client_order_id ≡ x.client_order_id)
  unfolding settle insert_trade
  settle-trade decode fails x e db db' done = elim (Option-cases (decode e.raw_payload)) [
    | inl bad ↦ absurd (ground arith)
    | inr (cmd, read) ↦ (trade_of e cmd x, ground arith, refl)
  ]

  settle-Booked :
      (decode : String → Option StoredCommand) (fails : Call → Bool) (x : ExecutionMsg R)
      (e : SpotExecution) (db db' : Db R)
      → find_first (awaits x.client_order_id) db.executions ≡ some e
      → Booked db
      → settle decode fails x e db ≡ some db'
      → Booked db'
  settle-Booked decode fails x e db db' found b done =
      let marked = settle-mark decode fails x e db db' done in
      let (t, added, of_x) = settle-trade decode fails x e db db' done in
      let news = has_filled-awaited x.client_order_id e db.executions found in
      record {
        distinct = rw marked (Distinct-mark e.id db.executions b.distinct);
        settled =
            rw (marked, added)
              (All-append _ db.trades (t ∷ [])
                (All-has_filled-mark e.id db.executions db.trades b.settled) (rw of_x news, tt));
      }

  balances-Booked :
      (fails : Call → Bool) (user_id : ℕ) (bs : List (BalanceMsg R)) (db db' : Db R)
      → Booked db
      → update_balances fails user_id bs db ≡ some db'
      → Booked db'
  balances-Booked fails user_id bs db db' b e =
      let same = update_balances-SameLedger fails user_id bs db db' e in
      Booked-same db db' (same.executions, same.trades) b

  apply_fill-Booked :
      (decode : String → Option StoredCommand) (fails : Call → Bool) (user_id : ℕ)
      (x : ExecutionMsg R) (bs : List (BalanceMsg R)) (e : SpotExecution) (db db' : Db R)
      → find_first (awaits x.client_order_id) db.executions ≡ some e
      → Booked db
      → apply_fill decode fails user_id x bs e db ≡ some db'
      → Booked db'
  unfolding apply_fill conclude write_audit
  apply_fill-Booked decode fails user_id x bs e db db' found b done =
      let a : AuditLog R = audit_of e x in
      let (mid, settled, rest) =
        bind_some (settle decode fails x e db) (conclude fails user_id bs a) db' done in
      let (end, balanced, written) =
        bind_some (update_balances fails user_id bs mid) (write_audit fails a) db' rest in
      let b1 = settle-Booked decode fails x e db mid found b settled in
      let b2 = balances-Booked fails user_id bs mid end b1 balanced in
      Booked-same end db' (ground arith) b2

  pub report_body-Booked :
      (decode : String → Option StoredCommand) (fails : Call → Bool) (user_id : ℕ)
      (r : DeltaReport R) (db db' : Db R)
      → Booked db
      → report_body decode fails user_id r db ≡ some db'
      → Booked db'
  unfolding report_body
  report_body-Booked decode fails user_id r db db' b done =
      let balances = balances-Booked fails user_id r.balances db db' b in
      elim (Option-cases (r.execution)) [
        | inl nothing ↦ balances (ground arith)
        | inr (x, has) ↦ elim (Bool-cases (str_eq x.client_order_id "")) [
          | inl unnamed ↦ balances (ground arith)
          | inr named ↦ elim (Option-cases (find_first (awaits x.client_order_id) db.executions)) [
            | inl gone ↦ balances (ground arith)
            | inr (e, found) ↦
                apply_fill-Booked decode fails user_id x r.balances e db db' found b (ground arith)
          ]
        ]
      ]
