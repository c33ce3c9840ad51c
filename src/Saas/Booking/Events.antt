-- ===== src/Saas/Booking/Events.antt =====
-- internal/saas/instance and internal/saas/ws: the orders over any sequence of ticks and agent
-- reports.
use trandingnok.Base.{ℕ, inl, inr, Bool, Option, List, [], ◌∷◌, String, Option-cases}
use trandingnok.Float.{Float64}
use trandingnok.Strategy.Types.{Strategy}
use trandingnok.Saas.Store.{StrategyInstance}
use trandingnok.Saas.Dispatch.{World}
use trandingnok.Saas.Tick.{tick}
use trandingnok.Saas.Load.{TickFaults, Feed}
use trandingnok.Saas.DeltaReport.{
  DeltaReport, StoredCommand, Call, report_body, process_delta_report,
}
use trandingnok.Saas.Booking.{Booked}
use trandingnok.Saas.Booking.Ticks.{tick-Booked}
use trandingnok.Saas.Booking.Reports.{report_body-Booked}

-- A tick of an instance, or a report of an agent.
pub data Event (R : Type 0) : Type 0 where
  ticked : TickFaults → Feed R → StrategyInstance → Event R
  reported : (Call → Bool) → ℕ → DeltaReport R → Event R

module _ {R : Type 0} ⦃f : Float64 R⦄ (strat : Strategy R)
    (decode : String → Option StoredCommand) where
  abbrev pub after : Event R → World R → World R
  after (ticked fails feed inst) w = (tick strat fails feed inst w).0
  after (reported fails user_id r) w = record w {
    db = (process_delta_report decode fails user_id r w.db).0;
  }

  abbrev pub after_all : List (Event R) → World R → World R
  after_all [] w = w
  after_all (e ∷ es) w = after_all es (after e w)

  after-Booked : (e : Event R) (w : World R) → Booked w.db → Booked (after e w).db
  unfolding process_delta_report
  after-Booked (ticked fails feed inst) w b = tick-Booked strat fails feed inst w b
  after-Booked (reported fails user_id r) w b =
      elim (Option-cases (report_body decode fails user_id r w.db)) [
        | inl bad ↦ rw (bad, process_delta_report) b
        | inr (db', done) ↦
            rw (done, process_delta_report)
              (report_body-Booked decode fails user_id r w.db db' b done)
      ]

  -- Whatever ticks and agent reports follow one another, and whichever database calls fail, no two
  -- executions share a client order id, and every trade record is that of a filled execution.
  pub after_all-Booked :
      (es : List (Event R)) (w : World R) → Booked w.db → Booked (after_all es w).db
  after_all-Booked [] w b = b
  after_all-Booked (e ∷ es) w b = after_all-Booked es (after e w) (after-Booked e w b)
