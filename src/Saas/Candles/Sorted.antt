-- ===== src/Saas/Candles/Sorted.antt =====
-- internal/saas/instance/manager.go: the order of the candles, and the bar that a tick processes.
use trandingnok.Base.{
  ℕ, zero, suc, ◌-◌, ◌<◌, ◌≤◌, String, ◌≡◌, refl, inl, inr, true, some, List, [], ◌∷◌, arith,
  Bool-cases, All, All-mono, length, take, ℤ, ◌≤ℤ◌, leb_ℤ,
}
use mathlib.Core.List.{Permᴰ}
use mathlib.Core.List.Permᴰ as Perm
use trandingnok.Float.{Float64, nought}
use text.Mathlib.Text.{◌==◌ as str_eq}
use trandingnok.Quant.Data.{Bar, extract_timestamps}
use trandingnok.Saas.Tick.{latest_time}
use trandingnok.Saas.Candles.{
  CandleResp, Parsers, candle_of, candles_of, insert_bar, sort_bars, fetch_latest_bars,
}

-- The text of a column, counted from nought; empty where the row is shorter.
abbrev column : ℕ → List String → String
column n [] = ""
column zero (s ∷ row) = s
column (suc n) (s ∷ row) = column n row

module _ {R : Type 0} ⦃f : Float64 R⦄ (parsers : Parsers R) where
  -- Bars are those of the rows: a row with fewer than five columns has none, every other row has
  -- one, its open time, open, high, low and close from its first five columns in this order.
  pub data Reads : List (List String) → List (Bar R) → Type 0 where
    nil : Reads [] []
    skip :
        (row : List String) (rows : List (List String)) (bars : List (Bar R))
        → length row < 5
        → Reads rows bars
        → Reads (row ∷ rows) bars
    keep :
        (row : List String) (rows : List (List String)) (b : Bar R) (bars : List (Bar R))
        → 5 ≤ length row
        → b.open_time ≡ parsers.parse_int (column 0 row)
        → b.open_price ≡ parsers.parse_float (column 1 row)
        → b.high ≡ parsers.parse_float (column 2 row)
        → b.low ≡ parsers.parse_float (column 3 row)
        → b.close ≡ parsers.parse_float (column 4 row)
        → b.volume ≡ nought
        → Reads rows bars
        → Reads (row ∷ rows) (b ∷ bars)

  candles_of-Reads : (rows : List (List String)) → Reads rows (candles_of parsers rows)
  unfolding candles_of candle_of
  candles_of-Reads [] = Reads.nil
  candles_of-Reads ((ts ∷ o ∷ h ∷ l ∷ c ∷ row) ∷ rows) =
      Reads.keep (ts ∷ o ∷ h ∷ l ∷ c ∷ row) rows _ (candles_of parsers rows) (omega arith) refl refl
        refl refl refl refl (candles_of-Reads rows)
  candles_of-Reads ([] ∷ rows) = Reads.skip _ rows _ (omega arith) (candles_of-Reads rows)
  candles_of-Reads ((a ∷ []) ∷ rows) = Reads.skip _ rows _ (omega arith) (candles_of-Reads rows)
  candles_of-Reads ((a ∷ b ∷ []) ∷ rows) = Reads.skip _ rows _ (omega arith) (candles_of-Reads rows)
  candles_of-Reads ((a ∷ b ∷ c ∷ []) ∷ rows) =
      Reads.skip _ rows _ (omega arith) (candles_of-Reads rows)
  candles_of-Reads ((a ∷ b ∷ c ∷ d ∷ []) ∷ rows) =
      Reads.skip _ rows _ (omega arith) (candles_of-Reads rows)

module _ {R : Type 0} where
  -- From the oldest to the newest.
  abbrev pub IsAscending : List (Bar R) → Type 0
  IsAscending [] = Unit
  IsAscending (b ∷ bars) = All (λ (c : Bar R). b.open_time ≤ℤ c.open_time) bars × IsAscending bars

  insert_bar-Perm : (b : Bar R) (bars : List (Bar R)) → Permᴰ (insert_bar b bars) (b ∷ bars)
  unfolding insert_bar
  insert_bar-Perm b [] = Perm.refl (b ∷ [])
  insert_bar-Perm b (c ∷ bars) = elim (Bool-cases (leb_ℤ b.open_time c.open_time)) [
    | inl first ↦ rw first (Perm.refl (b ∷ c ∷ bars))
    | inr later ↦
        rw later (Permᴰ.trans (Permᴰ.cons refl (insert_bar-Perm b bars)) (Permᴰ.swap refl refl))
  ]

  sort_bars-Perm : (bars : List (Bar R)) → Permᴰ (sort_bars bars) bars
  unfolding sort_bars
  sort_bars-Perm [] = Permᴰ.nil
  sort_bars-Perm (b ∷ bars) =
      Permᴰ.trans (insert_bar-Perm b (sort_bars bars)) (Permᴰ.cons refl (sort_bars-Perm bars))

  insert_bar-All :
      (P : Bar R → Type 0) (b : Bar R) (bars : List (Bar R))
      → P b
      → All P bars
      → All P (insert_bar b bars)
  unfolding insert_bar
  insert_bar-All P b [] p h = (p, tt)
  insert_bar-All P b (c ∷ bars) p (q, h) = elim (Bool-cases (leb_ℤ b.open_time c.open_time)) [
    | inl first ↦ rw first (p, (q, h))
    | inr later ↦ rw later (q, insert_bar-All P b bars p h)
  ]

  insert_bar-IsAscending :
      (b : Bar R) (bars : List (Bar R)) → IsAscending bars → IsAscending (insert_bar b bars)
  unfolding insert_bar
  insert_bar-IsAscending b [] h = (tt, tt)
  insert_bar-IsAscending b (c ∷ bars) (least, h) =
      elim (Bool-cases (leb_ℤ b.open_time c.open_time)) [
        | inl first ↦
            let below : b.open_time ≤ℤ c.open_time = ground arith in
            rw first ((below, All-mono bars (λ d k. omega arith) least), (least, h))
        | inr later ↦
            let above : c.open_time ≤ℤ b.open_time = ground arith in
            rw later (
              insert_bar-All (λ (d : Bar R). c.open_time ≤ℤ d.open_time) b bars above least,
              insert_bar-IsAscending b bars h,
            )
      ]

  sort_bars-IsAscending : (bars : List (Bar R)) → IsAscending (sort_bars bars)
  unfolding sort_bars
  sort_bars-IsAscending [] = tt
  sort_bars-IsAscending (b ∷ bars) =
      insert_bar-IsAscending b (sort_bars bars) (sort_bars-IsAscending bars)

module _ {R : Type 0} ⦃f : Float64 R⦄ where
  latest_time-cons :
      (b c d : Bar R) (bars : List (Bar R))
      → latest_time (b ∷ c ∷ d ∷ bars) ≡ latest_time (c ∷ d ∷ bars)
  unfolding extract_timestamps
  latest_time-cons b c d bars =
      let one_more : suc (suc (suc (length bars))) - 2 ≡ suc (suc (suc (length bars)) - 2) =
        omega arith in
      rw one_more refl

  take-cons :
      (b c : Bar R) (bars : List (Bar R))
      → take (length (b ∷ c ∷ bars) - 1) (b ∷ c ∷ bars)
        ≡ b ∷ take (length (c ∷ bars) - 1) (c ∷ bars)
  take-cons b c bars =
      let one_more : suc (suc (length bars)) - 1 ≡ suc (suc (length bars) - 1) = omega arith in
      rw one_more refl

  le-last_but_one :
      (t : ℤ) (b c : Bar R) (bars : List (Bar R))
      → All (λ (d : Bar R). t ≤ℤ d.open_time) (b ∷ c ∷ bars)
      → t ≤ℤ latest_time (b ∷ c ∷ bars)
  unfolding extract_timestamps
  le-last_but_one t b c [] (h, _) = h
  le-last_but_one t b c (d ∷ bars) (h, rest) = rw latest_time-cons (le-last_but_one t c d bars rest)

  -- The bars are not after a time.
  AreUpTo : ℤ → List (Bar R) → Type 0
  AreUpTo t bars = All (λ (b : Bar R). b.open_time ≤ℤ t) bars

  -- All bars but the newest are not after the bar that a tick processes.
  IsAscending-AreUpTo :
      (t : ℤ) (bars : List (Bar R))
      → latest_time bars ≡ t
      → IsAscending bars
      → AreUpTo t (take (length bars - 1) bars)
  unfolding extract_timestamps AreUpTo
  IsAscending-AreUpTo t [] e h = tt
  IsAscending-AreUpTo t (b ∷ []) e h = tt
  IsAscending-AreUpTo t (b ∷ c ∷ []) e h =
      let here : b.open_time ≡ t = e in rw here (omega arith, tt)
  IsAscending-AreUpTo t (b ∷ c ∷ d ∷ bars) e (least, h) =
      let same : latest_time (c ∷ d ∷ bars) ≡ t = rw (latest_time-cons b c d bars) at e in
      rw (take-cons b c (d ∷ bars)) (
        rw same at (le-last_but_one b.open_time c d bars least),
        IsAscending-AreUpTo t (c ∷ d ∷ bars) same h,
      )

module _ {R : Type 0} ⦃f : Float64 R⦄ (parsers : Parsers R) where
  -- An answer of the exchange without an error code is always turned into bars: one for each of its
  -- rows with at least five columns and none for the others, with the open time, open, high, low
  -- and close from the first five columns and no volume, from the oldest to the newest, so that the
  -- bar that a tick processes, the last but one, is not before any other bar but the newest.
  pub fetch_latest_bars-IsAscending :
      (resp : CandleResp)
      → str_eq resp.code "00000" ≡ true
      → (bars : List (Bar R)) × (fetch_latest_bars parsers (some resp) ≡ some bars)
        × (raw : List (Bar R)) × Reads parsers resp.rows raw
        × Permᴰ bars raw
        × IsAscending bars
        × All (λ (b : Bar R). b.open_time ≤ℤ latest_time bars) (take (length bars - 1) bars)
  unfolding fetch_latest_bars AreUpTo
  fetch_latest_bars-IsAscending resp ok =
      let bars = sort_bars (candles_of parsers resp.rows) in
      let ordered = sort_bars-IsAscending (candles_of parsers resp.rows) in
      (
        bars,
        rw ok refl,
        candles_of parsers resp.rows,
        candles_of-Reads parsers resp.rows,
        sort_bars-Perm (candles_of parsers resp.rows),
        ordered,
        IsAscending-AreUpTo (latest_time bars) bars refl ordered,
      )
