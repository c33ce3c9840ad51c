-- ===== src/Saas/Booking/Resent.antt =====
-- internal/saas/instance and internal/saas/ws: an order that is in the table is not sent again.
use trandingnok.Base.{
  ℕ, ◌≡◌, refl, ap, ◌∙◌, inl, inr, Bool, true, Option, some, List, [], ◌∷◌, arith, String,
  Bool-cases, Option-cases,
}
use trandingnok.Float.{Float64}
use text.Mathlib.Text.{◌==◌ as str_eq}
use trandingnok.Strategy.Types.{Strategy}
use trandingnok.Saas.Store.{SpotExecution, Db, find_first}
use trandingnok.Saas.Dispatch.{World}
use trandingnok.Saas.Booking.Known.{is_known, sent_of, is_known-mark, IsQuiet}
use trandingnok.Saas.Store.{awaits}
use trandingnok.Saas.DeltaReport.{
  DeltaReport, ExecutionMsg, BalanceMsg, StoredCommand, Call, settle, conclude, write_audit,
  update_balances, audit_of, apply_fill, report_body, process_delta_report,
}
use trandingnok.Saas.DeltaReport.Idempotent.{bind_some, settle-mark, update_balances-SameLedger}
use trandingnok.Saas.Store.{AuditLog}
use trandingnok.Saas.Booking.Events.{Event, ticked, reported, after, after_all}
use trandingnok.Saas.Booking.Quiet.{tick-IsQuiet}

module _ {R : Type 0} ⦃f : Float64 R⦄ (order : String) where
  balances-same :
      (fails : Call → Bool) (user_id : ℕ) (bs : List (BalanceMsg R)) (db db' : Db R)
      → update_balances fails user_id bs db ≡ some db'
      → is_known order db'.executions ≡ is_known order db.executions
  balances-same fails user_id bs db db' e =
      ap (is_known order) (update_balances-SameLedger fails user_id bs db db' e).executions

  apply_fill-same :
      (decode : String → Option StoredCommand) (fails : Call → Bool) (user_id : ℕ)
      (x : ExecutionMsg R) (bs : List (BalanceMsg R)) (e : SpotExecution) (db db' : Db R)
      → apply_fill decode fails user_id x bs e db ≡ some db'
      → is_known order db'.executions ≡ is_known order db.executions
  unfolding apply_fill conclude write_audit
  apply_fill-same decode fails user_id x bs e db db' done =
      let a : AuditLog R = audit_of e x in
      let (mid, settled, rest) =
        bind_some (settle decode fails x e db) (conclude fails user_id bs a) db' done in
      let (end, balanced, written) =
        bind_some (update_balances fails user_id bs mid) (write_audit fails a) db' rest in
      let marked = settle-mark decode fails x e db mid settled in
      let last : db'.executions ≡ end.executions = ground arith in
      ap (is_known order) last
      ∙ balances-same fails user_id bs mid end balanced
      ∙ ap (is_known order) marked
      ∙ is_known-mark order e.id db.executions

  report_body-same :
      (decode : String → Option StoredCommand) (fails : Call → Bool) (user_id : ℕ)
      (r : DeltaReport R) (db db' : Db R)
      → report_body decode fails user_id r db ≡ some db'
      → is_known order db'.executions ≡ is_known order db.executions
  unfolding report_body
  report_body-same decode fails user_id r db db' done =
      let balances = balances-same fails user_id r.balances db db' in
      elim (Option-cases (r.execution)) [
        | inl nothing ↦ balances (ground arith)
        | inr (x, has) ↦ elim (Bool-cases (str_eq x.client_order_id "")) [
          | inl unnamed ↦ balances (ground arith)
          | inr named ↦ elim (Option-cases (find_first (awaits x.client_order_id) db.executions)) [
            | inl gone ↦ balances (ground arith)
            | inr (e, found) ↦
                apply_fill-same decode fails user_id x r.balances e db db' (ground arith)
          ]
        ]
      ]

  after-IsQuiet :
      (strat : Strategy R) (decode : String → Option StoredCommand) (e : Event R) (w : World R)
      → IsQuiet order w (after strat decode e w)
  unfolding process_delta_report
  after-IsQuiet strat decode (ticked fails feed inst) w = tick-IsQuiet order strat fails feed inst w
  after-IsQuiet strat decode (reported fails user_id r) w =
      elim (Option-cases (report_body decode fails user_id r w.db)) [
        | inl bad ↦ rw (bad, process_delta_report) (λ known. (known, refl))
        | inr (db', done) ↦
            rw (done, process_delta_report)
              (λ known. (report_body-same decode fails user_id r w.db db' done ∙ known, refl))
      ]

  -- Over any sequence of ticks and agent reports, with any failing database calls, an order that
  -- has an execution keeps one, and no command of it is sent: not a second time, and not later
  -- where its agent was not connected.
  pub after_all-IsQuiet :
      (strat : Strategy R) (decode : String → Option StoredCommand) (es : List (Event R))
      (w : World R)
      → is_known order w.db.executions ≡ true
      → let w' = after_all strat decode es w in
        (is_known order w'.db.executions ≡ true) × (sent_of order w'.sent ≡ sent_of order w.sent)
  after_all-IsQuiet strat decode [] w known = (known, refl)
  after_all-IsQuiet strat decode (e ∷ es) w known =
      let (k, s) = after-IsQuiet strat decode e w known in
      let (k', s') = after_all-IsQuiet strat decode es (after strat decode e w) k in (k', s' ∙ s)
