-- ===== src/Saas/Cron/Idle.antt =====
-- internal/saas/cron/scheduler.go: instances that the scheduler leaves alone.
use trandingnok.Base.{
  ℕ, ◌+◌, ◌≡◌, ◌≢◌, refl, ◌∙◌, inl, inr, Bool, true, false, List, [], ◌∷◌, arith, All, Bool-cases,
}
use trandingnok.Float.{Float64}
use trandingnok.Strategy.Types.{Strategy}
use trandingnok.Saas.Store.{running, errored, eqb_status, StrategyInstance, update_where}
use trandingnok.Saas.Lifecycle.{in_status, change_status, mark_error, apply_op}
use trandingnok.Saas.Dispatch.{World}
use trandingnok.Saas.Load.{TickFaults, Feed}
use trandingnok.Saas.Tick.{tick_body, tick}
use trandingnok.Saas.Tick.Isolated.{tick_body-Keeps}
use trandingnok.Saas.Cron.{running_in, Round, run_ticks, scan, Signal, minute, stopped, loop}
use trandingnok.Saas.Cron.Rounds.{IsUntouched, scan-IsUntouched}

-- No running instance has an id.
abbrev pub IsIdle : ℕ → List StrategyInstance → Type 0
IsIdle other is = All (λ (i : StrategyInstance). other ≢ i.id) (running_in is)

update-IsIdle :
    (other id : ℕ) (is : List StrategyInstance)
    → IsIdle other is
    → IsIdle other (update_where (in_status id running) (λ i. record i { status = errored }) is)
unfolding running_in
update-IsIdle other id [] h = tt
update-IsIdle other id (i ∷ is) h = elim (Bool-cases (eqb_status i.status running)) [
  | inl on ↦
      let (here, rest) : (other ≢ i.id) × IsIdle other is = rw on at h in
      elim (Bool-cases (in_status id running i)) [
        | inl hit ↦ rw hit (update-IsIdle other id is rest)
        | inr miss ↦ rw (miss, on) (here, update-IsIdle other id is rest)
      ]
  | inr off ↦
      let rest : IsIdle other is = rw off at h in
      let miss : in_status id running i ≡ false = ground arith in
      rw (miss, off) (update-IsIdle other id is rest)
]

mark_error-IsIdle :
    (fails : Bool) (other id : ℕ) (is : List StrategyInstance)
    → IsIdle other is
    → IsIdle other (apply_op (mark_error fails id) is).0
unfolding apply_op change_status
mark_error-IsIdle true other id is h = h
mark_error-IsIdle false other id is h = update-IsIdle other id is h

module _ {R : Type 0} ⦃f : Float64 R⦄ (strat : Strategy R) where
  tick-IsIdle :
      (other : ℕ) (fails : TickFaults) (feed : Feed R) (inst : StrategyInstance) (w : World R)
      → IsIdle other w.db.instances
      → IsIdle other (tick strat fails feed inst w).0.db.instances
  unfolding tick
  tick-IsIdle other fails feed inst w h =
      let body = tick_body strat fails feed inst w in
      let (p, r, i) = tick_body-Keeps (inst.id + 1) strat fails feed inst w (λ e. omega arith) in
      let same : IsIdle other body.0.db.instances = rw i h in
      elim (Bool-cases (body.1)) [
        | inl bad ↦
            rw (tick, bad)
              (mark_error-IsIdle fails.mark_error other inst.id body.0.db.instances same)
        | inr good ↦ rw (tick, good) same
      ]

  run_ticks-IsIdle :
      (other : ℕ) (round : Round R) (is : List StrategyInstance) (w : World R)
      → IsIdle other w.db.instances
      → IsIdle other (run_ticks strat round is w).0.db.instances
  unfolding run_ticks
  run_ticks-IsIdle other round [] w h = h
  run_ticks-IsIdle other round (i ∷ is) w h =
      run_ticks-IsIdle other round is (tick strat (round.fails i.id) (round.feed i.id) i w).0
        (tick-IsIdle other (round.fails i.id) (round.feed i.id) i w h)

  scan-IsIdle :
      (other : ℕ) (round : Round R) (query_fails : Bool) (w : World R)
      → IsIdle other w.db.instances
      → IsIdle other (scan strat round query_fails w).0.db.instances
  unfolding scan
  scan-IsIdle other round true w h = h
  scan-IsIdle other round false w h = run_ticks-IsIdle other round (running_in w.db.instances) w h

  -- Over any run of the scheduler, whatever its ticks meet, an instance that is not RUNNING at the
  -- start keeps its account, its runtime state and its row, and is not RUNNING at the end.
  pub loop-IsUntouched :
      (round : ℕ → Round R) (query_fails : ℕ → Bool) (n other : ℕ) (signals : List Signal)
      (w : World R)
      → IsIdle other w.db.instances
      → let w' = loop strat round query_fails n signals w in
        IsUntouched other w.db w'.db × IsIdle other w'.db.instances
  unfolding loop
  loop-IsUntouched round query_fails n other [] w h = ((refl, refl, refl), h)
  loop-IsUntouched round query_fails n other (stopped ∷ signals) w h = ((refl, refl, refl), h)
  loop-IsUntouched round query_fails n other (minute ∷ signals) w h =
      let w1 = (scan strat (round n) (query_fails n) w).0 in
      let (p, r, i) = scan-IsUntouched strat (round n) (query_fails n) other w h in
      let ((p', r', i'), end) =
        loop-IsUntouched round query_fails (n + 1) other signals w1
          (scan-IsIdle other (round n) (query_fails n) w h) in
      ((p' ∙ p, r' ∙ r, i' ∙ i), end)
