-- ===== src/Agent/Exchange.antt =====
-- internal/agent/exchange/bitget.go: orders, fills and balances over the exchange's REST API.
use trandingnok.Base.{
  ℕ, zero, suc, ◌+◌, Bool, false, ◌||◌, Option, none, some, List, [], ◌∷◌, String, if◌then◌else◌,
}
use trandingnok.Float.{Float64, ◌≺◌, nought}
use Prim.Native.String.{◌++◌}
use text.Mathlib.Text.{◌==◌ as str_eq}
pub mod Fill

-- `TradeCommand`.
pub record Command : Type 0 where
  pub client_order_id : String
  pub action : String
  pub engine : String
  pub symbol : String
  pub amount_usdt : String
  pub qty_asset : String
  pub lot_type : String

pub record Execution (R : Type 0) : Type 0 where
  pub client_order_id : String
  pub filled_qty : R
  pub filled_price : R
  pub fee : R

pub record Balance (R : Type 0) : Type 0 where
  pub asset : String
  pub available : R
  pub frozen : R

-- What the exchange answers: an error of the request or of its JSON is none.
pub record PlaceResp : Type 0 where
  pub code : String
  pub order_id : String

pub record OrderInfo : Type 0 where
  pub code : String
  pub status : String
  pub base_volume : String
  pub fill_price : String
  pub total_deducted_fee : String

pub record Asset : Type 0 where
  pub coin_name : String
  pub available : String
  pub frozen : String

pub record AssetsResp : Type 0 where
  pub code : String
  pub assets : List Asset

-- The body of an order.
pub record OrderBody : Type 0 where
  pub symbol : String
  pub client_oid : String
  pub side : String
  pub size : String

-- The world that an order meets: the slash is taken out of its symbol, the answers to the order,
-- to the i-th query for its fill and to a query for the balances, whether the context is done at
-- the wait before the i-th query, and the value of a text, 0 for one that is no number.
pub record Market (R : Type 0) : Type 0 where
  pub strip_slash : String → String
  pub post_order : OrderBody → Option PlaceResp
  pub order_info : ℕ → String → Option OrderInfo
  pub cancelled : ℕ → Bool
  pub account_assets : Option AssetsResp
  pub parse_float : String → R

-- The results of the calls: the execution with an error, or without one.
pub data Placed (R : Type 0) : Type 0 where
  filled : Execution R → Placed R
  failed : Placed R

abbrev pub is_fill_status : String → Bool
is_fill_status s = str_eq s "full_fill" || str_eq s "partially_fill"

module _ {R : Type 0} ⦃f : Float64 R⦄ where
  -- An execution with nothing filled.
  abbrev pub zero_fill : String → Execution R
  zero_fill client_oid = record {
    client_order_id = client_oid;
    filled_qty = nought;
    filled_price = nought;
    fee = nought;
  }

module _ {R : Type 0} ⦃f : Float64 R⦄ (market : Market R) where
  -- The side and the size of an order; another action is an error.
  unfoldable pub order_body : Command → Option OrderBody
  order_body cmd =
      let sym = market.strip_slash cmd.symbol in
      if str_eq cmd.action "BUY"
      then some (record {
        symbol = sym;
        client_oid = cmd.client_order_id;
        side = "buy";
        size = cmd.amount_usdt;
      })
      else if str_eq cmd.action "SELL"
      then some (record {
        symbol = sym;
        client_oid = cmd.client_order_id;
        side = "sell";
        size = cmd.qty_asset;
      })
      else none

  abbrev pub fill_of : String → OrderInfo → Execution R
  fill_of client_oid info = record {
    client_order_id = client_oid;
    filled_qty = market.parse_float info.base_volume;
    filled_price = market.parse_float info.fill_price;
    fee = market.parse_float info.total_deducted_fee;
  }

  -- `fetchOrderInfo`: the execution, and whether it is filled; an error is none.
  unfoldable pub fetch_order_info : ℕ → String → String → Option (Execution R × Bool)
  fetch_order_info i client_oid order_id = elim (market.order_info i order_id) [
    | none ↦ none
    | some info ↦
        if str_eq info.code "00000"
        then some (fill_of client_oid info, is_fill_status info.status)
        else none
  ]

  -- The context is looked at in the wait before every query but the first.
  abbrev pub is_stopped : ℕ → Bool
  is_stopped zero = false
  is_stopped (suc i) = market.cancelled (suc i)

  -- The loop of `waitForFill`, with the queries that are left and the number of the next one.
  unfoldable pub poll : ℕ → ℕ → String → String → Placed R
  poll zero i client_oid order_id = filled (zero_fill client_oid)
  poll (suc left) i client_oid order_id =
      let rest = poll left (i + 1) client_oid order_id in
      let answer : Placed R = elim (fetch_order_info i client_oid order_id) [
        | none ↦ rest
        | some (ex, done) ↦ if done then filled ex else rest
      ] in
      if is_stopped i then failed else answer

  abbrev pub max_polls : ℕ
  max_polls = 6

  unfoldable pub wait_for_fill : String → String → Placed R
  wait_for_fill client_oid order_id = poll max_polls 0 client_oid order_id

  -- `PlaceOrder`.
  unfoldable pub place_order : Command → Placed R
  place_order cmd = elim (order_body cmd) [
    | none ↦ failed
    | some body ↦ elim (market.post_order body) [
      | none ↦ failed
      | some resp ↦
          if str_eq resp.code "00000"
          then wait_for_fill cmd.client_order_id resp.order_id
          else failed
    ]
  ]

  -- The balances that are not zero.
  unfoldable pub nonzero_balances : List Asset → List (Balance R)
  nonzero_balances [] = []
  nonzero_balances (d ∷ ds) =
      let avail = market.parse_float d.available in
      let frozen = market.parse_float d.frozen in
      let rest = nonzero_balances ds in
      if (nought ≺ avail) || (nought ≺ frozen)
      then record { asset = d.coin_name; available = avail; frozen = frozen } ∷ rest
      else rest

  -- `GetBalances`; an error is none.
  unfoldable pub get_balances : Option (List (Balance R))
  get_balances = elim (market.account_assets) [
    | none ↦ none
    | some resp ↦ if str_eq resp.code "00000" then some (nonzero_balances resp.assets) else none
  ]

-- A request: the query is empty, or stands behind a question mark.
abbrev pub request_path : String → String → String
request_path path query = if str_eq query "" then path else path ++ "?" ++ query

-- The URL that `post` and `get` ask for.
unfoldable pub request_url : String → String → String → String
request_url base path query =
    let u = base ++ path in if str_eq query "" then u else u ++ "?" ++ query

-- The text that `addAuth` signs; the method is in capitals.
unfoldable pub prehash : String → String → String → String → String → String
prehash ts method path query body = ts ++ method ++ request_path path query ++ body
