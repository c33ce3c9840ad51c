-- ===== src/Examples/Scans.antt =====
-- Runs of the scheduler, and of the candles that a tick fetches.
use trandingnok.Base.{
  ◌-◌, ◌≡◌, refl, true, false, some, List, [], ◌∷◌, arith, All, length, take, pos, ◌≤ℤ◌,
}
use mathlib.Core.List.{Permᴰ}
use trandingnok.Float.Fixed.{Fixed, fixed_float}
use trandingnok.Examples.Sample.{dec}
use trandingnok.Examples.Server.{instance_7, row, tables, no_faults, feed, world, buyer}
use trandingnok.Quant.Data.{Bar}
use trandingnok.Saas.Store.{stopped}
use trandingnok.Saas.Dispatch.{World}
use trandingnok.Saas.Load.{load_or_create_portfolio, load_champion_params}
use trandingnok.Saas.Dispatch.{dispatch_command, intent_to_command}
use trandingnok.Saas.Tick.{
  tick, tick_body, run_tick, decide, latest_time, upsert_runtime, book_releases, dispatch_all,
  advance,
}
use trandingnok.Saas.Cron.{running_in, Round, query_failed, run_ticks, scan, minute, loop}
use trandingnok.Saas.Cron.Rounds.{IsKeyed, IsUntouched, scan-once}
use trandingnok.Saas.Cron.Idle.{IsIdle, loop-IsUntouched}
use trandingnok.Saas.Candles.{CandleResp, Parsers, fetch_latest_bars}
use trandingnok.Saas.Candles.Sorted.{Reads, IsAscending, fetch_latest_bars-IsAscending}

-- Two running instances and a stopped one.
abbrev fleet : World Fixed
fleet = record world {
  db = record tables {
    instances =
        instance_7
        ∷ record instance_7 { id = 8 }
        ∷ record instance_7 { id = 9; status = stopped }
        ∷ [];
    portfolios = row ∷ record row { instance_id = 8 } ∷ record row { instance_id = 9 } ∷ [];
  };
}

abbrev first_round : Round Fixed
first_round = record { fails = λ id. no_faults; feed = λ id. feed }

-- The next minute, with the same bars; the call that saves a runtime state would fail.
abbrev next_round : Round Fixed
next_round = record {
  fails = λ id. record no_faults { save_runtime = true };
  feed = λ id. record feed { now_ms = pos 2 };
}

scan_ok : (scan buyer first_round false fleet).1 ≡ []
unfolding scan running_in run_ticks tick tick_body run_tick decide load_or_create_portfolio
    load_champion_params upsert_runtime book_releases dispatch_all dispatch_command
    intent_to_command advance
scan_ok = refl

fleet-IsKeyed : IsKeyed fleet.db.instances
fleet-IsKeyed = (
  (λ e. absurd (omega arith), (λ e. absurd (omega arith), tt)),
  ((λ e. absurd (omega arith), tt), (tt, tt)),
)

scan-once_example :
    let w' = (scan buyer first_round false fleet).0 in
    (scan buyer next_round false w' ≡ (w', []))
    × (scan buyer next_round true w' ≡ (w', query_failed ∷ []))
scan-once_example = (
  scan-once buyer first_round next_round false fleet fleet-IsKeyed (λ id. (refl, refl)) scan_ok,
  scan-once buyer first_round next_round true fleet fleet-IsKeyed (λ id. (refl, refl)) scan_ok,
)

loop-IsUntouched_example :
    let w' = loop buyer (λ n. first_round) (λ n. false) 0 (minute ∷ minute ∷ []) fleet in
    IsUntouched 9 fleet.db w'.db × IsIdle 9 w'.db.instances
unfolding running_in
loop-IsUntouched_example =
    loop-IsUntouched buyer (λ n. first_round) (λ n. false) 0 9 (minute ∷ minute ∷ []) fleet
      (λ e. absurd (omega arith), (λ e. absurd (omega arith), tt))

abbrev parsers : Parsers Fixed
parsers = record { parse_int = λ s. pos 5; parse_float = λ s. dec 1 }

abbrev answer : CandleResp
answer = record {
  code = "00000";
  rows =
      ("5" ∷ "1" ∷ "1" ∷ "1" ∷ "1" ∷ [])
      ∷ ("5" ∷ [])
      ∷ ("5" ∷ "1" ∷ "1" ∷ "1" ∷ "1" ∷ "9" ∷ [])
      ∷ [];
}

fetch_latest_bars-IsAscending_example :
    (bars : List (Bar Fixed)) × (fetch_latest_bars parsers (some answer) ≡ some bars)
    × (raw : List (Bar Fixed)) × Reads parsers answer.rows raw
    × Permᴰ bars raw
    × IsAscending bars
    × All (λ (b : Bar Fixed). b.open_time ≤ℤ latest_time bars) (take (length bars - 1) bars)
fetch_latest_bars-IsAscending_example = fetch_latest_bars-IsAscending parsers answer refl
