-- ===== src/Examples/Ticks.antt =====
-- Runs of ticks of one instance beside another.
use trandingnok.Base.{◌≡◌, refl, true, none, [], ◌∷◌, arith}
use trandingnok.Float.Fixed.{Fixed, fixed_float}
use trandingnok.Examples.Server.{instance_7, row, tables, no_faults, feed, world, buyer}
use trandingnok.Saas.Store.{running, find_first}
use trandingnok.Saas.Lifecycle.{with_id, in_status}
use trandingnok.Saas.Lifecycle.Moves.{Rows}
use trandingnok.Saas.Dispatch.{World}
use trandingnok.Saas.Load.{
  TickFaults, is_mine, is_runtime_of, load_or_create_portfolio, load_champion_params,
}
use trandingnok.Saas.Tick.{tick, tick_body, run_tick, decide}
use trandingnok.Saas.Tick.Isolated.{tick-Isolated}
use trandingnok.Saas.Tick.Errored.{Fails, tick-Errored}

-- The tables with a second instance, 8.
abbrev both : World Fixed
both = record world {
  db = record tables {
    instances = instance_7 ∷ record instance_7 { id = 8 } ∷ [];
    portfolios = row ∷ record row { instance_id = 8 } ∷ [];
  };
}

tick-Isolated_example :
    let w' = (tick buyer no_faults feed instance_7 both).0 in
    (find_first (is_mine 8) w'.db.portfolios ≡ find_first (is_mine 8) both.db.portfolios)
    × (find_first (is_runtime_of 8) w'.db.runtimes ≡ find_first (is_runtime_of 8) both.db.runtimes)
    × (find_first (with_id 8) w'.db.instances ≡ find_first (with_id 8) both.db.instances)
tick-Isolated_example =
    tick-Isolated buyer no_faults feed instance_7 8 both (λ e. absurd (omega arith))

-- The last call of a tick fails.
abbrev unsaved : TickFaults
unsaved = record no_faults { advance = true }

abbrev failed_world : World Fixed
failed_world = (tick buyer unsaved feed instance_7 both).0

tick_failed : tick buyer unsaved feed instance_7 both ≡ (failed_world, true)
unfolding tick tick_body run_tick decide load_or_create_portfolio load_champion_params
tick_failed = refl

tick-Errored_example :
    (find_first (in_status 7 running) failed_world.db.instances ≡ none)
    × Rows (Fails 7) both.db.instances failed_world.db.instances
tick-Errored_example = tick-Errored buyer unsaved feed instance_7 both failed_world tick_failed refl
