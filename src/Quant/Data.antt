-- ===== src/Quant/Data.antt =====
-- internal/quant/data.go and closes.go: bars, the account and runtime state, trade intents.
use trandingnok.Base.{ℕ, ◌==◌, Bool, true, false, ◌&&◌, List, [], ◌∷◌, map, String, ℤ, eqb_ℤ}
use text.Mathlib.Text.{◌==◌ as str_eq}

pub record Bar (R : Type 0) : Type 0 where
  pub open_time : ℤ
  pub open_price : R
  pub high : R
  pub low : R
  pub close : R
  pub volume : R

pub record PortfolioState (R : Type 0) : Type 0 where
  pub total_usdt : R
  pub reserve_floor : R
  pub spendable_usdt : R
  pub dead_stack : R
  pub float_stack : R
  pub cold_sealed_stack : R
  pub nav_initial : R

-- The key "2006-01" of a month: `unset` is the empty string, `other` a string of another form.
pub data MonthStr : Type 0 where
  unset : MonthStr
  month : ℤ → ℕ → MonthStr
  other : String → MonthStr

-- Go's `==` on these strings.
abbrev pub eqb_month : MonthStr → MonthStr → Bool
eqb_month unset unset = true
eqb_month (month y m) (month z n) = eqb_ℤ y z && m == n
eqb_month (other s) (other t) = str_eq s t
eqb_month _ _ = false

pub record RuntimeState (R : Type 0) : Type 0 where
  pub ema200 : R
  pub ema200_history : List R
  pub month_high : R
  pub month_str : MonthStr
  pub triggered_tiers : List ℕ
  pub stop_loss_hit : Bool

-- The strings of a trade intent. `other` stands for the strings that no code compares with.
pub data Action : Type 0 where
  buy : Action
  sell : Action
  release : Action
  other : String → Action

pub data Engine : Type 0 where
  macro : Engine
  micro : Engine
  other : String → Engine

pub data LotType : Type 0 where
  dead_stack : LotType
  floating : LotType
  other : String → LotType

pub record TradeIntent (R : Type 0) : Type 0 where
  pub action : Action
  pub engine : Engine
  pub lot_type : LotType
  pub amount_usdt : R
  pub qty_asset : R

module _ {R : Type 0} where
  unfoldable pub extract_closes : List (Bar R) → List R
  extract_closes = map (λ b. b.close)

  unfoldable pub extract_highs : List (Bar R) → List R
  extract_highs = map (λ b. b.high)

  unfoldable pub extract_lows : List (Bar R) → List R
  extract_lows = map (λ b. b.low)

  unfoldable pub extract_timestamps : List (Bar R) → List ℤ
  extract_timestamps = map (λ b. b.open_time)

  -- The last bar of a series that begins with `b`.
  unfoldable pub last_bar : Bar R → List (Bar R) → Bar R
  last_bar b [] = b
  last_bar b (c ∷ bars) = last_bar c bars
