-- ===== src/Saas/Lifecycle.antt =====
-- internal/saas/instance/manager.go: Start, Stop, Delete and markError.
use trandingnok.Base.{ℕ, Bool, ◌&&◌, none, some, List, [], ◌∷◌, ◌==◌, if◌then◌else◌}
pub mod Moves
use trandingnok.Saas.Store.{
  Status, running, stopped, errored, deleted, eqb_status, StrategyInstance, find_first,
  update_where,
}

abbrev pub with_id : ℕ → StrategyInstance → Bool
with_id id i = i.id == id

abbrev pub in_status : ℕ → Status → StrategyInstance → Bool
in_status id s i = i.id == id && eqb_status i.status s

-- The outcome of a call: an error of the database, no row that qualifies, or success.
pub data Outcome : Type 0 where
  db_error : Outcome
  not_in_state : Outcome
  done : Outcome

-- An update of the status of the rows with an id and a status; `fails` is the database's answer.
unfoldable pub change_status :
    Bool → ℕ → Status → Status → List StrategyInstance → List StrategyInstance × Outcome
change_status fails id from to is =
    let affected = find_first (in_status id from) is in
    let is' = update_where (in_status id from) (λ i. record i { status = to }) is in
    if fails then (is, db_error) else (is', elim affected [ none ↦ not_in_state | some i ↦ done ])

-- The calls, each with the database's answer.
pub data Op : Type 0 where
  start : Bool → ℕ → Op
  stop : Bool → ℕ → Op
  delete : Bool → ℕ → Op
  mark_error : Bool → ℕ → Op

-- `Start`, `Stop`, `Delete` and `markError`, which passes over errors.
unfoldable pub apply_op : Op → List StrategyInstance → List StrategyInstance × Outcome
apply_op (start fails id) is = change_status fails id stopped running is
apply_op (stop fails id) is = change_status fails id running stopped is
apply_op (delete fails id) is =
    if fails
    then (is, db_error)
    else (update_where (with_id id) (λ i. record i { status = deleted }) is, done)
apply_op (mark_error fails id) is = ((change_status fails id running errored is).0, done)

unfoldable pub run_ops : List Op → List StrategyInstance → List StrategyInstance
run_ops [] is = is
run_ops (o ∷ os) is = run_ops os (apply_op o is).0
