-- ===== src/Quant/Calendar.antt =====
-- The month keys: `MonthKey` of internal/quant/macro_engine.go, `monthOf` and `daysSince` of
-- internal/quant/ghost_dca.go. Times are milliseconds; the calendar of Go's package time is the
-- proleptic Gregorian one, in UTC.
pub mod Months
use trandingnok.Base.{
  ℕ, ◌+◌, ◌-◌, ◌*◌, ◌/◌, ◌%◌, ◌≡◌, refl, ltb, if◌then◌else◌, ℤ, pos, negsuc, sub_ℕ, ◌+ℤ◌, ◌-ℤ◌,
  ◌*ℤ◌, ltb_ℤ, leb_ℤ, quot_ℤ, wrap64,
}
use trandingnok.Quant.Data.{MonthStr, unset, month}

-- Year (from March) and month of the day number `z`, counted from the first of March of year 0.
year_of_era : ℕ → ℕ
year_of_era doe = (doe - doe / 1460 + doe / 36524 - doe / 146096) / 365

day_of_year : ℕ → ℕ
unfolding year_of_era
day_of_year doe = let yoe = year_of_era doe in doe - (365 * yoe + yoe / 4 - yoe / 100)

-- The month from 1 to 12, and the year that it belongs to.
civil : ℕ → ℕ × ℕ
unfolding year_of_era day_of_year
civil z =
    let doe = z % 146097 in
    let mp = (5 * day_of_year doe + 2) / 153 in
    let y = year_of_era doe + z / 146097 * 400 in if ltb mp 10 then (y, mp + 3) else (y + 1, mp - 9)

-- The first day of year 1970 in the count of `civil`, moved on by a million eras of 400 years so
-- that every 64-bit time has a day number.
abbrev epoch_day : ℕ
epoch_day = 719468 + 146097 * 1000000

day_number : ℤ → ℕ
day_number (pos s) = epoch_day + s / 86400
day_number (negsuc s) = epoch_day - (s / 86400 + 1)

pub year_month : ℤ → ℤ × ℕ
unfolding civil day_number quot_ℤ
year_month ts_millis =
    let (y, m) = civil (day_number (quot_ℤ ts_millis 1000)) in (sub_ℕ y 400000000, m)

-- `MonthKey`.
unfoldable pub month_key : ℤ → MonthStr
unfolding year_month
month_key ts_millis =
    if leb_ℤ ts_millis (pos 0) then unset else let (y, m) = year_month ts_millis in month y m

-- `monthOf`.
unfoldable pub month_of : ℤ → ℤ
unfolding year_month ◌+ℤ◌ ◌*ℤ◌
month_of ts_millis = let (y, m) = year_month ts_millis in y *ℤ pos 12 +ℤ pos m

-- `daysSince`.
unfoldable pub days_since : ℤ → ℤ → ℤ
unfolding ◌-ℤ◌ wrap64 quot_ℤ
days_since from_millis to_millis =
    let diff = wrap64 (to_millis -ℤ from_millis) in
    let diff' = if ltb_ℤ diff (pos 0) then wrap64 (pos 0 -ℤ diff) else diff in
    quot_ℤ (quot_ℤ (quot_ℤ (quot_ℤ diff' 1000) 60) 60) 24

new_year_2024 : month_key (pos 1704067200000) ≡ month (pos 2024) 1
unfolding month_key
new_year_2024 = refl

before_new_year_2024 : month_key (pos 1704067199999) ≡ month (pos 2023) 12
unfolding month_key
before_new_year_2024 = refl

leap_day_2000 : month_of (pos 951782400000) ≡ pos 24002
unfolding month_of
leap_day_2000 = refl

before_1970 : month_of (negsuc 999) ≡ pos 23640
unfolding month_of
before_1970 = refl
