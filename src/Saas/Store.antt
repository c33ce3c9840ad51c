-- ===== src/Saas/Store.antt =====
-- internal/saas/store/models.go: the rows that the server's components read and write, without the
-- bookkeeping columns of gorm.Model but the primary key where code uses it.
pub mod First
use trandingnok.Base.{
  ℕ, Bool, true, false, ◌&&◌, Option, none, some, List, [], ◌∷◌, String, if◌then◌else◌, ℤ,
}
use text.Mathlib.Text.{◌==◌ as str_eq}

-- `StrategyInstance.Status`.
pub data Status : Type 0 where
  running : Status
  stopped : Status
  errored : Status
  deleted : Status

abbrev pub eqb_status : Status → Status → Bool
eqb_status running running = true
eqb_status stopped stopped = true
eqb_status errored errored = true
eqb_status deleted deleted = true
eqb_status _ _ = false

pub record StrategyInstance : Type 0 where
  pub id : ℕ
  pub user_id : ℕ
  pub template_id : ℕ
  pub symbol : String
  pub interval : String
  pub status : Status
  pub param_pack : String

-- `PortfolioState`; a zero `LastProcessedBarTime` is none.
pub record PortfolioRow (R : Type 0) : Type 0 where
  pub instance_id : ℕ
  pub usdt_balance : R
  pub dead_btc : R
  pub float_btc : R
  pub cold_sealed_btc : R
  pub total_equity : R
  pub last_processed_bar_time : Option ℤ

-- `RuntimeState`.
pub record RuntimeRow : Type 0 where
  pub instance_id : ℕ
  pub payload : String

-- `SpotExecution.Status`.
pub data ExecStatus : Type 0 where
  pending : ExecStatus
  filled : ExecStatus
  failed : ExecStatus

abbrev pub is_pending : ExecStatus → Bool
is_pending pending = true
is_pending _ = false

pub record SpotExecution : Type 0 where
  pub id : ℕ
  pub instance_id : ℕ
  pub client_order_id : String
  pub status : ExecStatus
  pub raw_payload : String

pub record TradeRecord (R : Type 0) : Type 0 where
  pub instance_id : ℕ
  pub client_order_id : String
  pub action : String
  pub engine : String
  pub symbol : String
  pub filled_qty : R
  pub filled_price : R
  pub fee : R

-- `AuditLog`, with the quantity that its JSON payload carries.
pub record AuditLog (R : Type 0) : Type 0 where
  pub instance_id : ℕ
  pub event_type : String
  pub qty : R

-- The tables.
pub record Db (R : Type 0) : Type 0 where
  pub instances : List StrategyInstance
  pub portfolios : List (PortfolioRow R)
  pub runtimes : List RuntimeRow
  pub executions : List SpotExecution
  pub trades : List (TradeRecord R)
  pub audits : List (AuditLog R)

-- `First` with a condition: the first row that meets it.
abbrev pub find_first {ℓ} : {A : Type ℓ} → (A → Bool) → List A → Option A
find_first p [] = none
find_first p (x ∷ xs) = if p x then some x else find_first p xs

-- `Where` and `Update`: the rows that meet a condition are changed.
abbrev pub update_where {ℓ} : {A : Type ℓ} → (A → Bool) → (A → A) → List A → List A
update_where p g [] = []
update_where p g (x ∷ xs) = (if p x then g x else x) ∷ update_where p g xs

-- The pending execution of a client order id.
abbrev pub awaits : String → SpotExecution → Bool
awaits client_order_id e = str_eq e.client_order_id client_order_id && is_pending e.status
