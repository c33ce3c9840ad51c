-- ===== src/System/Filled.antt =====
-- internal/saas/ws/portfolio.go: a fill that meets no failing call is booked.
use trandingnok.Base.{
  ℕ, ◌==◌, ◌≡◌, refl, ◌∙◌, Bool, false, Option, none, some, List, [], ◌∷◌, ◌++◌, arith, String, All,
  map, if◌then◌else◌, inl, inr, true, Bool-cases,
}
use trandingnok.Float.{Float64, ◌⊕◌, ◌⊖◌, ◌≺◌, nought}
use text.Mathlib.Text.{◌==◌ as str_eq}
use trandingnok.Saas.Store.{
  SpotExecution, filled, PortfolioRow, AuditLog, Db, find_first, update_where, awaits,
}
use trandingnok.Saas.DeltaReport.Idempotent.{holdings, set_balances-holdings}
use trandingnok.Saas.DeltaReport.{
  ExecutionMsg, BalanceMsg, StoredCommand, Call, mark_filled, load_portfolio, save_portfolio,
  create_trade, create_audit, load_instances, find_execution, set_balances, usdt_available,
  owned_by, DeltaReport, mark, fill_lot, trade_of, audit_of, insert_trade, settle, write_audit,
  conclude, update_balances, apply_fill, report_body, process_delta_report,
}

-- Every execution of a primary key is filled.
abbrev pub IsFilled : ℕ → List SpotExecution → Type 0
IsFilled id = All (λ (e : SpotExecution). e.id ≡ id → e.status ≡ filled)

mark-IsFilled : (id : ℕ) (es : List SpotExecution) → IsFilled id (mark id es)
unfolding mark
mark-IsFilled id [] = tt
mark-IsFilled id (e ∷ es) = (ground arith, mark-IsFilled id es)

module _ {R : Type 0} ⦃f : Float64 R⦄ where
  -- The server can apply a fill of an order: its execution is pending and its stored command can be
  -- read, its instance has an account row, and there is no trade of the order.
  pub record IsOpen (decode : String → Option StoredCommand) (order : String) (e : SpotExecution)
      (cmd : StoredCommand) (p : PortfolioRow R) (db : Db R) : Type 0 where
    pub named : str_eq order "" ≡ false
    pub awaited : find_first (awaits order) db.executions ≡ some e
    pub stored : decode e.raw_payload ≡ some cmd
    pub owned : find_first (λ q. q.instance_id == e.instance_id) db.portfolios ≡ some p
    pub untraded : find_first (λ t. str_eq t.client_order_id order) db.trades ≡ none

  -- What a quantity does to the stacks of a row: the lot picks the stack, a purchase adds to it,
  -- anything else takes from it, and no stack falls below 0.
  pub data Booking (cmd : StoredCommand) (qty : R) (p p' : PortfolioRow R) : Type 0 where
    dead_bought :
        str_eq cmd.lot_type "DEAD_STACK" ≡ true
        → str_eq cmd.action "BUY" ≡ true
        → p' ≡ record p { dead_btc = p.dead_btc ⊕ qty }
        → Booking cmd qty p p'
    dead_sold :
        str_eq cmd.lot_type "DEAD_STACK" ≡ true
        → str_eq cmd.action "BUY" ≡ false
        → p'
          ≡ record p { dead_btc = if (p.dead_btc ⊖ qty) ≺ nought then nought else p.dead_btc ⊖ qty }
        → Booking cmd qty p p'
    float_bought :
        str_eq cmd.lot_type "DEAD_STACK" ≡ false
        → str_eq cmd.lot_type "FLOATING" ≡ true
        → str_eq cmd.action "BUY" ≡ true
        → p' ≡ record p { float_btc = p.float_btc ⊕ qty }
        → Booking cmd qty p p'
    float_sold :
        str_eq cmd.lot_type "DEAD_STACK" ≡ false
        → str_eq cmd.lot_type "FLOATING" ≡ true
        → str_eq cmd.action "BUY" ≡ false
        → p' ≡ record p {
          float_btc = if (p.float_btc ⊖ qty) ≺ nought then nought else p.float_btc ⊖ qty;
        }
        → Booking cmd qty p p'
    no_lot :
        str_eq cmd.lot_type "DEAD_STACK" ≡ false
        → str_eq cmd.lot_type "FLOATING" ≡ false
        → p' ≡ p
        → Booking cmd qty p p'

  fill_lot-Booking :
      (cmd : StoredCommand) (qty : R) (p : PortfolioRow R) → Booking cmd qty p (fill_lot cmd qty p)
  unfolding fill_lot
  fill_lot-Booking cmd qty p = elim (Bool-cases (str_eq cmd.lot_type "DEAD_STACK")) [
    | inl dead ↦ elim (Bool-cases (str_eq cmd.action "BUY")) [
      | inl buy ↦ Booking.dead_bought dead buy (rw (dead, buy) refl)
      | inr sell ↦ Booking.dead_sold dead sell (rw (dead, sell) refl)
    ]
    | inr alive ↦ elim (Bool-cases (str_eq cmd.lot_type "FLOATING")) [
      | inr other ↦ Booking.no_lot alive other (rw (alive, other) refl)
      | inl float ↦ elim (Bool-cases (str_eq cmd.action "BUY")) [
        | inl buy ↦ Booking.float_bought alive float buy (rw (alive, float, buy) refl)
        | inr sell ↦ Booking.float_sold alive float sell (rw (alive, float, sell) refl)
      ]
    ]
  ]

  -- The accounts after a fill, before the balances of its report.
  abbrev pub filled_rows :
      SpotExecution
      → StoredCommand
      → ExecutionMsg R
      → PortfolioRow R
      → List (PortfolioRow R)
      → List (PortfolioRow R)
  filled_rows e cmd x p =
      update_where (λ q. q.instance_id == e.instance_id) (λ q. fill_lot cmd x.filled_qty p)

  -- What a fill leaves: the execution filled, one trade more, and the quantity in the stack of its
  -- lot; beside the stacks of its instance's row only balances differ.
  pub record IsSettled (e : SpotExecution) (cmd : StoredCommand) (x : ExecutionMsg R)
      (p : PortfolioRow R) (db db' : Db R) : Type 0 where
    pub marked : IsFilled e.id db'.executions
    pub traded :
        db'.trades
        ≡ db.trades
          ++ (record {
            instance_id = e.instance_id;
            client_order_id = x.client_order_id;
            action = cmd.action;
            engine = cmd.engine;
            symbol = cmd.symbol;
            filled_qty = x.filled_qty;
            filled_price = x.filled_price;
            fee = x.fee;
          }
              ∷ [])
    pub row : PortfolioRow R
    pub booked : Booking cmd x.filled_qty p row
    pub moved :
        map holdings db'.portfolios
        ≡ map holdings (update_where (λ q. q.instance_id == e.instance_id) (λ q. row) db.portfolios)

  settle-eq :
      (decode : String → Option StoredCommand) (fails : Call → Bool) (x : ExecutionMsg R)
      (e : SpotExecution) (cmd : StoredCommand) (p : PortfolioRow R) (db : Db R)
      → ((c : Call) → fails c ≡ false)
      → IsOpen decode x.client_order_id e cmd p db
      → (db' : Db R) × (settle decode fails x e db ≡ some db') × IsSettled e cmd x p db db'
  unfolding settle insert_trade
  settle-eq decode fails x e cmd p db ok o =
      let db' = record db {
        executions = mark e.id db.executions;
        portfolios = filled_rows e cmd x p db.portfolios;
        trades = db.trades ++ (trade_of e cmd x ∷ []);
      } in
      (
        db',
        ground (arith, ok mark_filled, ok load_portfolio, ok save_portfolio, ok create_trade),
        record {
          marked = mark-IsFilled e.id db.executions;
          traded = refl;
          row = fill_lot cmd x.filled_qty p;
          booked = fill_lot-Booking cmd x.filled_qty p;
          moved = refl;
        },
      )

  -- The balances and the audit entry leave the executions, the trades and the stacks.
  conclude-eq :
      (fails : Call → Bool) (user_id : ℕ) (bs : List (BalanceMsg R)) (a : AuditLog R) (db : Db R)
      → ((c : Call) → fails c ≡ false)
      → (db' : Db R) × (conclude fails user_id bs a db ≡ some db')
        × (db'.executions ≡ db.executions)
        × (db'.trades ≡ db.trades)
        × (map holdings db'.portfolios ≡ map holdings db.portfolios)
  unfolding conclude update_balances write_audit
  conclude-eq fails user_id [] a db ok =
      (record db { audits = db.audits ++ (a ∷ []) }, rw (ok create_audit) refl, refl, refl, refl)
  conclude-eq fails user_id (b ∷ bs) a db ok = (
    record db {
      portfolios =
          set_balances fails (usdt_available (b ∷ bs)) (owned_by user_id db.instances)
            db.portfolios;
      audits = db.audits ++ (a ∷ []);
    },
    rw (ok load_instances, ok create_audit) refl,
    refl,
    refl,
    set_balances-holdings fails (usdt_available (b ∷ bs)) (owned_by user_id db.instances)
        db.portfolios,
  )

  -- A report of a fill that meets no failing call is applied.
  pub process-IsSettled :
      (decode : String → Option StoredCommand) (fails : Call → Bool) (user_id : ℕ)
      (x : ExecutionMsg R) (bs : List (BalanceMsg R)) (e : SpotExecution) (cmd : StoredCommand)
      (p : PortfolioRow R) (db : Db R)
      → ((c : Call) → fails c ≡ false)
      → IsOpen decode x.client_order_id e cmd p db
      → let report : DeltaReport R = record { execution = some x; balances = bs } in
        IsSettled e cmd x p db (process_delta_report decode fails user_id report db).0
  unfolding process_delta_report report_body apply_fill
  process-IsSettled decode fails user_id x bs e cmd p db ok o =
      let (db1, settled, first) = settle-eq decode fails x e cmd p db ok o in
      let (db2, ends, execs, trades, stacks) = conclude-eq fails user_id bs (audit_of e x) db1 ok in
      rw (o.named, ok find_execution, o.awaited, settled, ends, report_body, process_delta_report)
        (record {
          marked = rw execs first.marked;
          traded = trades ∙ first.traded;
          row = first.row;
          booked = first.booked;
          moved = stacks ∙ first.moved;
        })
