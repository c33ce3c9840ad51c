-- ===== src/Saas/Candles.antt =====
-- internal/saas/instance/manager.go: the candles that a tick fetches from the exchange.
pub mod Sorted
use trandingnok.Base.{Option, none, some, List, [], ◌∷◌, String, if◌then◌else◌, ℤ, leb_ℤ}
use trandingnok.Float.{Float64, nought}
use text.Mathlib.Text.{◌==◌ as str_eq}
use trandingnok.Quant.Data.{Bar}

-- `bitgetCandleResp`, with the rows of its data.
pub record CandleResp : Type 0 where
  pub code : String
  pub rows : List (List String)

-- The values of a text as an integer and as a float64, with what the library gives on an error.
pub record Parsers (R : Type 0) : Type 0 where
  pub parse_int : String → ℤ
  pub parse_float : String → R

module _ {R : Type 0} ⦃f : Float64 R⦄ (parsers : Parsers R) where
  -- A row with fewer than five columns is skipped; the volume is not read.
  unfoldable pub candle_of : List String → Option (Bar R)
  candle_of (ts ∷ opening ∷ high ∷ low ∷ close ∷ rest) = some (record {
    open_time = parsers.parse_int ts;
    open_price = parsers.parse_float opening;
    high = parsers.parse_float high;
    low = parsers.parse_float low;
    close = parsers.parse_float close;
    volume = nought;
  })
  candle_of _ = none

  unfoldable pub candles_of : List (List String) → List (Bar R)
  candles_of [] = []
  candles_of (row ∷ rows) =
      let rest = candles_of rows in elim (candle_of row) [ none ↦ rest | some b ↦ b ∷ rest ]

module _ {R : Type 0} where
  -- `sort.Slice` by the open time.
  unfoldable pub insert_bar : Bar R → List (Bar R) → List (Bar R)
  insert_bar b [] = b ∷ []
  insert_bar b (c ∷ bars) =
      let rest = insert_bar b bars in
      if leb_ℤ b.open_time c.open_time then b ∷ c ∷ bars else c ∷ rest

  unfoldable pub sort_bars : List (Bar R) → List (Bar R)
  sort_bars [] = []
  sort_bars (b ∷ bars) = insert_bar b (sort_bars bars)

module _ {R : Type 0} ⦃f : Float64 R⦄ (parsers : Parsers R) where
  -- `fetchLatestBars`, on the exchange's answer, none for an error of the request or of its JSON.
  unfoldable pub fetch_latest_bars : Option CandleResp → Option (List (Bar R))
  fetch_latest_bars none = none
  fetch_latest_bars (some resp) =
      if str_eq resp.code "00000" then some (sort_bars (candles_of parsers resp.rows)) else none
