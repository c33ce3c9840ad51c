-- ===== src/Saas/Booking.antt =====
-- internal/saas/instance/manager.go and internal/saas/ws/portfolio.go: the invariant of the orders.
pub mod Ticks
pub mod Reports
pub mod Events
pub mod Known
pub mod Quiet
pub mod Resent
use trandingnok.Base.{
  ℕ, ◌+◌, ◌-◌, ◌≡◌, ◌≢◌, inl, inr, Bool, true, false, ◌&&◌, ◌||◌, none, some, List, [], ◌∷◌, ◌++◌,
  arith, String, ◌==◌, if◌then◌else◌, Bool-cases, Option-cases, All, All-mono,
}
use text.Mathlib.Text.{◌==◌ as str_eq}
use text.Mathlib.TextEquality.{eq_iff}
use trandingnok.Saas.Store.{
  StrategyInstance, SpotExecution, ExecStatus, filled, TradeRecord, Db, find_first, awaits,
}
use trandingnok.Saas.Dispatch.{Printer, TradeCommand, World, dispatch_command}
use trandingnok.Saas.DeltaReport.{mark}
use trandingnok.Saas.DeltaReport.Idempotent.{Distinct}

abbrev pub is_filled : ExecStatus → Bool
is_filled filled = true
is_filled _ = false

-- Some execution of a client order id is filled.
abbrev pub has_filled : String → List SpotExecution → Bool
has_filled c [] = false
has_filled c (e ∷ es) = (str_eq e.client_order_id c && is_filled e.status) || has_filled c es

-- No two executions share a client order id, and every trade is that of a filled execution.
pub record Booked {R : Type 0} (db : Db R) : Type 0 where
  pub distinct : Distinct db.executions
  pub settled : All (λ t. has_filled t.client_order_id db.executions ≡ true) db.trades

-- Marking changes no client order id.
others-mark :
    (c : String) (id : ℕ) (es : List SpotExecution)
    → All (λ d. c ≢ d.client_order_id) es
    → All (λ d. c ≢ d.client_order_id) (mark id es)
unfolding mark
others-mark c id [] n = tt
others-mark c id (d ∷ es) (m, n) = elim (Bool-cases (d.id == id)) [
  | inl hit ↦ rw (hit, mark) (m, others-mark c id es n)
  | inr miss ↦ rw (miss, mark) (m, others-mark c id es n)
]

pub Distinct-mark : (id : ℕ) (es : List SpotExecution) → Distinct es → Distinct (mark id es)
unfolding mark
Distinct-mark id [] h = tt
Distinct-mark id (e ∷ es) (n, h) = elim (Bool-cases (e.id == id)) [
  | inl hit ↦ rw (hit, mark) (others-mark e.client_order_id id es n, Distinct-mark id es h)
  | inr miss ↦ rw (miss, mark) (others-mark e.client_order_id id es n, Distinct-mark id es h)
]

-- A row whose client order id is not taken joins the others.
others-append :
    (c : String) (row : SpotExecution) (es : List SpotExecution)
    → All (λ d. c ≢ d.client_order_id) es
    → c ≢ row.client_order_id
    → All (λ d. c ≢ d.client_order_id) (es ++ (row ∷ []))
others-append c row [] n m = (m, tt)
others-append c row (d ∷ es) (k, n) m = (k, others-append c row es n m)

Distinct-append :
    (row : SpotExecution) (es : List SpotExecution)
    → find_first (λ e. str_eq e.client_order_id row.client_order_id) es ≡ none
    → Distinct es
    → Distinct (es ++ (row ∷ []))
Distinct-append row [] free h = (tt, tt)
Distinct-append row (e ∷ es) free (n, h) =
    elim (Bool-cases (str_eq e.client_order_id row.client_order_id)) [
      | inl same ↦ absurd (ground arith)
      | inr other ↦
          let differs : e.client_order_id ≢ row.client_order_id = λ p.
            let same : str_eq e.client_order_id row.client_order_id ≡ true =
              (eq_iff e.client_order_id row.client_order_id).1 p in
            absurd (ground arith) in
          (
            others-append e.client_order_id row es n differs,
            Distinct-append row es (rw other at free) h,
          )
    ]

has_filled-mark :
    (c : String) (id : ℕ) (es : List SpotExecution)
    → has_filled c es ≡ true
    → has_filled c (mark id es) ≡ true
unfolding mark
has_filled-mark c id [] h = h
has_filled-mark c id (e ∷ es) h = ground (arith, has_filled-mark c id es)

-- The execution that awaited an id has filled it once it is marked.
pub has_filled-awaited :
    (c : String) (e : SpotExecution) (es : List SpotExecution)
    → find_first (awaits c) es ≡ some e
    → has_filled c (mark e.id es) ≡ true
unfolding mark
has_filled-awaited c e [] h = absurd (ground arith)
has_filled-awaited c e (d ∷ es) h = ground (arith, has_filled-awaited c e es)

has_filled-append :
    (c : String) (e : SpotExecution) (es : List SpotExecution)
    → has_filled c es ≡ true
    → has_filled c (es ++ (e ∷ [])) ≡ true
has_filled-append c e [] h = absurd (ground arith)
has_filled-append c e (d ∷ es) h = ground (arith, has_filled-append c e es)

pub All-has_filled-mark :
    {R : Type 0} (id : ℕ) (es : List SpotExecution) (ts : List (TradeRecord R))
    → All (λ t. has_filled t.client_order_id es ≡ true) ts
    → All (λ t. has_filled t.client_order_id (mark id es) ≡ true) ts
All-has_filled-mark id es ts = All-mono ts (λ t h. has_filled-mark t.client_order_id id es h)

module _ {R : Type 0} where
  -- States with the same executions and trades.
  abbrev pub SameOrders : Db R → Db R → Type 0
  SameOrders d e = (e.executions ≡ d.executions) × (e.trades ≡ d.trades)

  pub Booked-same : (d e : Db R) → SameOrders d e → Booked d → Booked e
  Booked-same d e (p, q) b = record { distinct = rw p b.distinct; settled = rw (p, q) b.settled }

  pub choose-Booked :
      (t : Bool) (x y : World R × Bool)
      → Booked x.0.db
      → Booked y.0.db
      → Booked (if t then x else y).0.db
  choose-Booked true x y a b = a
  choose-Booked false x y a b = b

  pub dispatch_command-Booked :
      (printer : Printer R) (fails online : Bool) (inst : StrategyInstance) (cmd : TradeCommand)
      (w : World R)
      → Booked w.db
      → Booked (dispatch_command printer fails online inst cmd w).0.db
  unfolding dispatch_command
  dispatch_command-Booked printer true online inst cmd w b = b
  dispatch_command-Booked printer false online inst cmd w b =
      elim (Option-cases
        (find_first (λ e. str_eq e.client_order_id cmd.client_order_id) w.db.executions)) [
          | inl free ↦
              rw (free, dispatch_command)
                (record {
                  distinct = Distinct-append _ w.db.executions free b.distinct;
                  settled =
                      All-mono w.db.trades
                        (λ t h. has_filled-append t.client_order_id _ w.db.executions h) b.settled;
                })
          | inr (e, taken) ↦ rw (taken, dispatch_command) b
        ]
