-- ===== src/Saas/Cron.antt =====
-- internal/saas/cron/scheduler.go: the scan of the running instances. The ticks of a scan run in
-- goroutines and the scan waits for all of them; here they run one after another.
pub mod Rounds
pub mod Idle
use trandingnok.Base.{ℕ, ◌+◌, Bool, List, [], ◌∷◌, if◌then◌else◌}
use trandingnok.Float.{Float64}
use trandingnok.Strategy.Types.{Strategy}
use trandingnok.Saas.Store.{running, eqb_status, StrategyInstance}
use trandingnok.Saas.Dispatch.{World}
use trandingnok.Saas.Load.{TickFaults, Feed}
use trandingnok.Saas.Tick.{tick}

-- "status = RUNNING".
unfoldable pub running_in : List StrategyInstance → List StrategyInstance
running_in [] = []
running_in (i ∷ is) =
    let rest = running_in is in if eqb_status i.status running then i ∷ rest else rest

-- What the ticks of a scan meet, by the id of the instance.
pub record Round (R : Type 0) : Type 0 where
  pub fails : ℕ → TickFaults
  pub feed : ℕ → Feed R

-- The errors that a scan logs: its query's, or that of the tick of an instance.
pub data Logged : Type 0 where
  query_failed : Logged
  tick_failed : ℕ → Logged

module _ {R : Type 0} ⦃f : Float64 R⦄ (strat : Strategy R) (round : Round R) where
  -- The ticks of instances, with the errors that are logged.
  unfoldable pub run_ticks : List StrategyInstance → World R → World R × List Logged
  run_ticks [] w = (w, [])
  run_ticks (i ∷ is) w =
      let (w', failed) = tick strat (round.fails i.id) (round.feed i.id) i w in
      let (w'', errors) = run_ticks is w' in
      (w'', if failed then tick_failed i.id ∷ errors else errors)

  -- `scan`; a query that fails is logged and ends it.
  unfoldable pub scan : Bool → World R → World R × List Logged
  scan query_fails w =
      if query_fails then (w, query_failed ∷ []) else run_ticks (running_in w.db.instances) w

-- What wakes the loop of the scheduler: its ticker, or the closed stop channel.
pub data Signal : Type 0 where
  minute : Signal
  stopped : Signal

module _ {R : Type 0} ⦃f : Float64 R⦄ (strat : Strategy R) (round : ℕ → Round R)
    (query_fails : ℕ → Bool) where
  -- `loop`, with the number of the next scan.
  unfoldable pub loop : ℕ → List Signal → World R → World R
  loop n [] w = w
  loop n (stopped ∷ signals) w = w
  loop n (minute ∷ signals) w = loop (n + 1) signals (scan strat (round n) (query_fails n) w).0
