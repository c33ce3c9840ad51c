-- ===== src/Quant/Calendar/Months.antt =====
-- internal/quant/macro_engine.go and ghost_dca.go: the two month keys agree.
use trandingnok.Base.{
  ℕ, ◌+◌, ◌*◌, ◌/◌, ◌%◌, ◌≤◌, ◌<◌, ◌≡◌, refl, sym, inl, inr, false, ◌&&◌, arith, ltb, ◌==◌,
  Bool-cases, ℤ, pos, ◌+ℤ◌, ◌*ℤ◌, leb_ℤ, eqb_ℤ, quot_ℤ,
}
use trandingnok.Quant.Data.{month, eqb_month}
use trandingnok.Quant.Calendar.{
  year_of_era, day_of_year, civil, day_number, year_month, month_key, month_of,
}

day_of_year-le : (doe : ℕ) → doe < 146097 → day_of_year doe ≤ 366
unfolding day_of_year year_of_era
day_of_year-le doe h = omega arith

civil-month : (z : ℕ) → (1 ≤ (civil z).1) × ((civil z).1 ≤ 12)
unfolding civil
civil-month z =
    let le = day_of_year-le (z % 146097) (omega arith) in
    elim (Bool-cases (ltb ((5 * day_of_year (z % 146097) + 2) / 153) 10)) [
      | inl early ↦ rw early (ground arith)
      | inr late ↦ rw late (ground arith)
    ]

year_month-month : (ts : ℤ) → (1 ≤ (year_month ts).1) × ((year_month ts).1 ≤ 12)
unfolding year_month
year_month-month ts = civil-month (day_number (quot_ℤ ts 1000))

-- Twelve months to a year, numbered from 1: the sum tells year and month apart.
sum_injective :
    (y z : ℤ) (m n : ℕ)
    → 1 ≤ m
    → m ≤ 12
    → 1 ≤ n
    → n ≤ 12
    → eqb_ℤ (y *ℤ pos 12 +ℤ pos m) (z *ℤ pos 12 +ℤ pos n) ≡ (eqb_ℤ y z && m == n)
unfolding ◌+ℤ◌ ◌*ℤ◌
sum_injective y z m n a b c d = ground arith

month_of_lem : (ts : ℤ) → month_of ts ≡ (year_month ts).0 *ℤ pos 12 +ℤ pos (year_month ts).1
unfolding month_of
month_of_lem ts = refl

month_key_lem :
    (ts : ℤ) → leb_ℤ ts (pos 0) ≡ false → month_key ts ≡ month (year_month ts).0 (year_month ts).1
unfolding month_key
month_key_lem ts p = rw p

-- For positive times the backtest's month key and the baseline's month number see the same month
-- boundaries: two times have one key exactly when they have one number.
pub month_key-eq-month_of :
    (a b : ℤ)
    → leb_ℤ a (pos 0) ≡ false
    → leb_ℤ b (pos 0) ≡ false
    → eqb_month (month_key a) (month_key b) ≡ eqb_ℤ (month_of a) (month_of b)
month_key-eq-month_of a b p q =
    let (la, ua) = year_month-month a in
    let (lb, ub) = year_month-month b in
    rw (month_key_lem a p, month_key_lem b q, month_of_lem a, month_of_lem b)
      (sym (
        sum_injective (year_month a).0 (year_month b).0 (year_month a).1 (year_month b).1 la ua lb
          ub))
