-- ===== src/Examples/Sample.antt =====
-- Sample values for the runs of the model, in decimals with four places.
use trandingnok.Base.{ℕ, ◌*◌, ◌+◌, some, [], ◌∷◌, pos, false, true}
use trandingnok.Float.{lit}
use trandingnok.Float.Fixed.{Fixed, fixed_float}
use trandingnok.Quant.Data.{Bar, PortfolioState, RuntimeState, MonthStr}
use trandingnok.Quant.Genome.{Chromosome, SpawnPoint}

-- A whole number.
abbrev pub dec : ℕ → Fixed
dec n = lit n 0

abbrev pub day_ms : ℕ
day_ms = 24 * 60 * 60 * 1000

-- A bar `n` days after the start of 2024 that closes at a price.
abbrev pub bar_at : ℕ → ℕ → Bar Fixed
bar_at n price = record {
  open_time = pos (1704067200000 + n * day_ms);
  open_price = dec price;
  high = dec (price + 5);
  low = dec price;
  close = dec price;
  volume = dec 1;
}

abbrev pub chromosome : Chromosome Fixed
chromosome = record {
  dca_drop_pct = lit 10 2;
  sigmoid_sensitivity = dec 5;
  stop_loss_threshold = some (pos 0);
}

abbrev pub spawn : SpawnPoint Fixed
spawn = record {
  base_currency = "USDT";
  trading_pair = "BTC/USDT";
  initial_capital = dec 1000;
  reserve_floor = dec 100;
  roi_release_trigger = lit 5 1;
  release_ratio = lit 25 2;
  monthly_inject = dec 0;
}

abbrev pub account : PortfolioState Fixed
account = record {
  total_usdt = dec 1000;
  reserve_floor = dec 100;
  spendable_usdt = dec 900;
  dead_stack = dec 4;
  float_stack = dec 2;
  cold_sealed_stack = dec 0;
  nav_initial = dec 1000;
}

abbrev pub fresh : RuntimeState Fixed
fresh = record {
  ema200 = dec 100;
  ema200_history = dec 100 ∷ [];
  month_high = dec 200;
  month_str = MonthStr.month (pos 2024) 1;
  triggered_tiers = [];
  stop_loss_hit = false;
}

abbrev pub stopped : RuntimeState Fixed
stopped = record fresh { stop_loss_hit = true }
