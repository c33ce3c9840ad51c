-- ===== src/Saas/DeltaReport/Idempotent.antt =====
-- internal/saas/ws/portfolio.go: a second report of an order changes balances alone.
use trandingnok.Base.{
  ℕ, ◌≡◌, refl, sym, ◌∙◌, ◌≢◌, inl, inr, Bool, false, Option, none, some, List, [], ◌∷◌, map, arith,
  String, ◌==◌, Bool-cases, Option-cases, All, All-mono,
}
use trandingnok.Float.{Float64, nought}
use text.Mathlib.Text.{◌==◌ as str_eq}
use text.Mathlib.TextEquality.{eq_iff}
use trandingnok.Ga.Engine.{◌>>=◌}
use trandingnok.Saas.Store.{
  StrategyInstance, PortfolioRow, SpotExecution, filled, AuditLog, Db, find_first, update_where,
  awaits,
}
use trandingnok.Saas.DeltaReport.{
  DeltaReport, ExecutionMsg, BalanceMsg, StoredCommand, Call, mark, set_balances, owned_by,
  usdt_available, update_balances, audit_of, insert_trade, apply_fill, report_body,
  process_delta_report, update_balance, settle, write_audit, conclude,
}

-- No two executions have one client order id, as the unique index on the column keeps it.
abbrev pub Distinct : List SpotExecution → Type 0
Distinct [] = Unit
Distinct (e ∷ es) = All (λ d. e.client_order_id ≢ d.client_order_id) es × Distinct es

awaits-mark : (c : String) (e : SpotExecution) → awaits c (record e { status = filled }) ≡ false
awaits-mark c e = ground arith

-- Executions with other ids do not await.
none-awaits :
    (c : String) (id : ℕ) (es : List SpotExecution)
    → All (λ d. c ≢ d.client_order_id) es
    → find_first (awaits c) (mark id es) ≡ none
unfolding mark
none-awaits c id [] h = refl
none-awaits c id (d ∷ es) (n, h) =
    let differs : str_eq d.client_order_id c ≡ false =
      elim (Bool-cases (str_eq d.client_order_id c)) [
        | inl same ↦ absurd (n (sym ((eq_iff d.client_order_id c).0 same)))
        | inr other ↦ other
      ] in
    ground (arith, none-awaits c id es h)

-- Once the execution that awaited an id is marked, none awaits it.
find_first-mark :
    (c : String) (es : List SpotExecution) (e : SpotExecution)
    → Distinct es
    → find_first (awaits c) es ≡ some e
    → find_first (awaits c) (mark e.id es) ≡ none
unfolding mark
find_first-mark c [] e h found = absurd (ground arith)
find_first-mark c (d ∷ es) e (n, h) found = elim (Bool-cases (awaits c d)) [
  | inl here ↦
      let same : d.client_order_id ≡ c = (eq_iff d.client_order_id c).0 (ground arith) in
      let others = none-awaits c e.id es (All-mono es (λ x h e'. h (same ∙ e')) n) in
      let first : d ≡ e = ground arith in ground (arith, others, awaits-mark c d)
  | inr later ↦
      let rest = find_first-mark c es e h (rw later at found) in
      ground (arith, rest, awaits-mark c d)
]

-- A bind that gives a value has one to give.
pub bind_some {ℓ κ} :
    {A : Type ℓ} {B : Type κ} (o : Option A) (k : A → Option B) (b : B)
    → (o >>= k) ≡ some b
    → (a : A) × (o ≡ some a) × (k a ≡ some b)
bind_some none k b e = absurd (ground arith)
bind_some (some a) k b e = (a, refl, e)

module _ {R : Type 0} ⦃f : Float64 R⦄ where
  -- A row without its balance.
  abbrev pub holdings : PortfolioRow R → PortfolioRow R
  holdings p = record p { usdt_balance = nought }

  -- Two states that differ in balances at most.
  pub record SameLedger (d e : Db R) : Type 0 where
    pub instances : e.instances ≡ d.instances
    pub executions : e.executions ≡ d.executions
    pub trades : e.trades ≡ d.trades
    pub audits : e.audits ≡ d.audits
    pub stacks : map holdings e.portfolios ≡ map holdings d.portfolios

  update_where-holdings :
      (id : ℕ) (usdt : R) (ps : List (PortfolioRow R))
      → map holdings
          (update_where (λ p. p.instance_id == id) (λ p. record p { usdt_balance = usdt }) ps)
        ≡ map holdings ps
  update_where-holdings id usdt [] = refl
  update_where-holdings id usdt (p ∷ ps) = ground (arith, update_where-holdings id usdt ps)

  pub set_balances-holdings :
      (fails : Call → Bool) (usdt : R) (is : List StrategyInstance) (ps : List (PortfolioRow R))
      → map holdings (set_balances fails usdt is ps) ≡ map holdings ps
  unfolding set_balances
  set_balances-holdings fails usdt [] ps = refl
  set_balances-holdings fails usdt (i ∷ is) ps = elim (Bool-cases (fails (update_balance i.id))) [
    | inl bad ↦ rw bad (set_balances-holdings fails usdt is ps)
    | inr good ↦
        rw good (set_balances-holdings fails usdt is _ ∙ update_where-holdings i.id usdt ps)
  ]

  pub update_balances-SameLedger :
      (fails : Call → Bool) (user_id : ℕ) (bs : List (BalanceMsg R)) (db db' : Db R)
      → update_balances fails user_id bs db ≡ some db'
      → SameLedger db db'
  unfolding update_balances
  update_balances-SameLedger fails user_id [] db db' e = ground arith
  update_balances-SameLedger fails user_id (b ∷ bs) db db' e =
      let kept =
        set_balances-holdings fails (usdt_available (b ∷ bs)) (owned_by user_id db.instances)
          db.portfolios in
      ground arith

  -- Without an execution that awaits it a report changes balances alone.
  pub report_body-SameLedger :
      (decode : String → Option StoredCommand) (fails : Call → Bool) (user_id : ℕ)
      (report : DeltaReport R) (x : ExecutionMsg R) (db db' : Db R)
      → report.execution ≡ some x
      → find_first (awaits x.client_order_id) db.executions ≡ none
      → report_body decode fails user_id report db ≡ some db'
      → SameLedger db db'
  unfolding report_body
  report_body-SameLedger decode fails user_id report x db db' has gone done =
      let same = update_balances-SameLedger fails user_id report.balances db db' in ground arith

  pub settle-mark :
      (decode : String → Option StoredCommand) (fails : Call → Bool) (x : ExecutionMsg R)
      (e : SpotExecution) (db db' : Db R)
      → settle decode fails x e db ≡ some db'
      → db'.executions ≡ mark e.id db.executions
  unfolding settle insert_trade
  settle-mark decode fails x e db db' done = ground arith

  -- What an applied fill leaves of the executions.
  apply_fill-mark :
      (decode : String → Option StoredCommand) (fails : Call → Bool) (user_id : ℕ)
      (x : ExecutionMsg R) (bs : List (BalanceMsg R)) (e : SpotExecution) (db db' : Db R)
      → apply_fill decode fails user_id x bs e db ≡ some db'
      → db'.executions ≡ mark e.id db.executions
  unfolding apply_fill conclude write_audit
  apply_fill-mark decode fails user_id x bs e db db' done =
      let a : AuditLog R = audit_of e x in
      let (mid, settled, rest) =
        bind_some (settle decode fails x e db) (conclude fails user_id bs a) db' done in
      let (end, balanced, written) =
        bind_some (update_balances fails user_id bs mid) (write_audit fails a) db' rest in
      let same = update_balances-SameLedger fails user_id bs mid end balanced in
      let marked = settle-mark decode fails x e db mid settled in ground arith

  -- After an applied report no execution awaits its order.
  report_body-none :
      (decode : String → Option StoredCommand) (fails : Call → Bool) (user_id : ℕ)
      (r : DeltaReport R) (x : ExecutionMsg R) (db db' : Db R)
      → Distinct db.executions
      → r.execution ≡ some x
      → str_eq x.client_order_id "" ≡ false
      → report_body decode fails user_id r db ≡ some db'
      → find_first (awaits x.client_order_id) db'.executions ≡ none
  unfolding report_body
  report_body-none decode fails user_id r x db db' distinct has named done =
      let exec = find_first (awaits x.client_order_id) db.executions in
      elim (Option-cases exec) [
        | inl gone ↦
            let same = update_balances-SameLedger fails user_id r.balances db db' (ground arith) in
            rw same.executions gone
        | inr (e, found) ↦
            let marked =
              apply_fill-mark decode fails user_id x r.balances e db db' (ground arith) in
            rw marked (find_first-mark x.client_order_id db.executions e distinct found)
      ]

  -- After a report of an order has been applied, every further report of the same order, whatever
  -- it carries and whichever database calls fail, leaves the executions, the trades, the audit log
  -- and every stack as they are: at most balances change.
  pub process_delta_report-SameLedger :
      (decode : String → Option StoredCommand) (fails fails' : Call → Bool) (user_id user_id' : ℕ)
      (r r' : DeltaReport R) (x x' : ExecutionMsg R) (db db' : Db R)
      → Distinct db.executions
      → r.execution ≡ some x
      → r'.execution ≡ some x'
      → x'.client_order_id ≡ x.client_order_id
      → str_eq x.client_order_id "" ≡ false
      → process_delta_report decode fails user_id r db ≡ (db', false)
      → SameLedger db' (process_delta_report decode fails' user_id' r' db').0
  unfolding process_delta_report
  process_delta_report-SameLedger decode fails fails' user_id user_id' r r' x x' db db' distinct has
        has' id named done =
      let body : report_body decode fails user_id r db ≡ some db' = ground arith in
      let gone = report_body-none decode fails user_id r x db db' distinct has named body in
      elim (Option-cases (report_body decode fails' user_id' r' db')) [
        | inl failed ↦
            rw (failed, process_delta_report)
              (record {
                instances = refl;
                executions = refl;
                trades = refl;
                audits = refl;
                stacks = refl;
              })
        | inr (end, again) ↦
            rw (again, process_delta_report)
              (report_body-SameLedger decode fails' user_id' r' x' db' end has' (rw id gone) again)
      ]
