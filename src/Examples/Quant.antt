-- ===== src/Examples/Quant.antt =====
-- Runs of the code under internal/quant.
use trandingnok.Base.{◌≤◌, ◌≡◌, refl, [], ◌∷◌, pos, eqb_ℤ}
use trandingnok.Float.Fixed.{Fixed, fixed_float}
use trandingnok.Examples.Sample.{dec, chromosome, account, fresh, stopped}
use trandingnok.Quant.Data.{RuntimeState, MonthStr, eqb_month}
use trandingnok.Quant.Calendar.{month_key, month_of}
use trandingnok.Quant.Calendar.Months.{month_key-eq-month_of}
use trandingnok.Quant.Macro.{MacroInput, compute_macro_decision}
use trandingnok.Quant.Macro.Table.{Rolled, Decides, compute_macro_decision-Decides}
use trandingnok.Quant.Macro.Tiers.{count_orders, count_orders-le_three}
use trandingnok.Quant.Micro.{MicroInput}

-- A price 25% below the month's high, with capital to spend.
abbrev dip : MacroInput Fixed
dip = record {
  price = dec 150;
  portfolio = account;
  params = chromosome;
  rt = fresh;
  month_str = MonthStr.month (pos 2024) 1;
}

compute_macro_decision-Decides_example :
    (rt : RuntimeState Fixed) × Rolled dip rt × Decides dip rt (compute_macro_decision dip)
compute_macro_decision-Decides_example = compute_macro_decision-Decides dip

count_orders-le_three_example : count_orders (dip ∷ dip ∷ dip ∷ dip ∷ []) stopped ≤ 3
count_orders-le_three_example =
    count_orders-le_three (MonthStr.month (pos 2024) 1) (dip ∷ dip ∷ dip ∷ dip ∷ []) stopped
      (refl, (refl, (refl, (refl, tt))))

-- A price above the average, with stack to sell.
abbrev rise : MicroInput Fixed
rise = record {
  price = dec 120;
  ema200 = dec 100;
  portfolio = account;
  params = chromosome;
  rt = fresh;
}

month_key-eq-month_of_example :
    eqb_month (month_key (pos 1704067200000)) (month_key (pos 1704067199999))
    ≡ eqb_ℤ (month_of (pos 1704067200000)) (month_of (pos 1704067199999))
month_key-eq-month_of_example =
    month_key-eq-month_of (pos 1704067200000) (pos 1704067199999) refl refl
