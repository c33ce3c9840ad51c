-- ===== src/Saas/Cron/Rounds.antt =====
-- internal/saas/cron/scheduler.go with internal/saas/instance/manager.go: scans one after another.
use trandingnok.Base.{
  ℕ, ◌+◌, ◌≡◌, ◌≢◌, refl, ◌∙◌, inl, inr, Bool, true, false, List, [], ◌∷◌, arith, All, Bool-cases,
  if◌then◌else◌,
}
use trandingnok.Float.{Float64}
use trandingnok.Strategy.Types.{Strategy}
use trandingnok.Saas.Store.{running, eqb_status, StrategyInstance, Db, find_first}
use trandingnok.Saas.Lifecycle.{with_id}
use trandingnok.Saas.Dispatch.{World}
use trandingnok.Saas.Load.{TickFaults, Feed, is_mine, is_runtime_of}
use trandingnok.Saas.Tick.{tick_body, tick}
use trandingnok.Saas.Tick.Isolated.{tick_body-Keeps, tick-Isolated}
use trandingnok.Saas.Tick.Once.{IsSeen, tick-IsSeen, tick-seen}
use trandingnok.Saas.Cron.{running_in, Round, query_failed, run_ticks, scan}

-- No two instances share an id.
abbrev pub IsKeyed : List StrategyInstance → Type 0
IsKeyed [] = Unit
IsKeyed (i ∷ is) = All (λ (j : StrategyInstance). i.id ≢ j.id) is × IsKeyed is

running_in-All :
    (P : StrategyInstance → Type 0) (is : List StrategyInstance) → All P is → All P (running_in is)
unfolding running_in
running_in-All P [] h = tt
running_in-All P (i ∷ is) (p, h) = elim (Bool-cases (eqb_status i.status running)) [
  | inl on ↦ rw on (p, running_in-All P is h)
  | inr off ↦ rw off (running_in-All P is h)
]

running_in-IsKeyed : (is : List StrategyInstance) → IsKeyed is → IsKeyed (running_in is)
unfolding running_in
running_in-IsKeyed [] h = tt
running_in-IsKeyed (i ∷ is) (p, h) = elim (Bool-cases (eqb_status i.status running)) [
  | inl on ↦ rw on (running_in-All _ is p, running_in-IsKeyed is h)
  | inr off ↦ rw off (running_in-IsKeyed is h)
]

module _ {R : Type 0} ⦃f : Float64 R⦄ where
  -- The account, the runtime state and the row of an instance are as they were.
  abbrev pub IsUntouched : ℕ → Db R → Db R → Type 0
  IsUntouched other db db' =
      (find_first (is_mine other) db'.portfolios ≡ find_first (is_mine other) db.portfolios)
      × (find_first (is_runtime_of other) db'.runtimes
          ≡ find_first (is_runtime_of other) db.runtimes)
      × (find_first (with_id other) db'.instances ≡ find_first (with_id other) db.instances)

  run_ticks-IsUntouched :
      (strat : Strategy R) (round : Round R) (other : ℕ) (is : List StrategyInstance) (w : World R)
      → All (λ (i : StrategyInstance). other ≢ i.id) is
      → IsUntouched other w.db (run_ticks strat round is w).0.db
  unfolding run_ticks
  run_ticks-IsUntouched strat round other [] w h = (refl, refl, refl)
  run_ticks-IsUntouched strat round other (i ∷ is) w (differs, h) =
      let w1 = (tick strat (round.fails i.id) (round.feed i.id) i w).0 in
      let (p, r, s) = tick-Isolated strat (round.fails i.id) (round.feed i.id) i other w differs in
      let (p', r', s') = run_ticks-IsUntouched strat round other is w1 h in (p' ∙ p, r' ∙ r, s' ∙ s)

  -- A scan leaves the account, the runtime state and the row of an instance that is not RUNNING as
  -- they are, whatever the ticks of the others meet.
  pub scan-IsUntouched :
      (strat : Strategy R) (round : Round R) (query_fails : Bool) (other : ℕ) (w : World R)
      → All (λ (i : StrategyInstance). other ≢ i.id) (running_in w.db.instances)
      → IsUntouched other w.db (scan strat round query_fails w).0.db
  unfolding scan
  scan-IsUntouched strat round true other w h = (refl, refl, refl)
  scan-IsUntouched strat round false other w h =
      run_ticks-IsUntouched strat round other (running_in w.db.instances) w h

  tick-instances :
      (strat : Strategy R) (fails : TickFaults) (feed : Feed R) (inst : StrategyInstance)
      (w : World R)
      → (tick strat fails feed inst w).1 ≡ false
      → (tick strat fails feed inst w).0.db.instances ≡ w.db.instances
  unfolding tick
  tick-instances strat fails feed inst w ok =
      let (p, r, i) = tick_body-Keeps (inst.id + 1) strat fails feed inst w (λ e. omega arith) in
      elim (Bool-cases ((tick_body strat fails feed inst w).1)) [
        | inl bad ↦ absurd (ground arith)
        | inr good ↦ rw (tick, good) i
      ]

  IsSeen-kept :
      (feed : Feed R) (inst : StrategyInstance) (w w' : World R)
      → find_first (is_mine inst.id) w'.db.portfolios ≡ find_first (is_mine inst.id) w.db.portfolios
      → IsSeen feed inst w
      → IsSeen feed inst w'
  IsSeen-kept feed inst w w' same (IsSeen.unread missing) = IsSeen.unread missing
  IsSeen-kept feed inst w w' same (IsSeen.few bars got short) = IsSeen.few bars got short
  IsSeen-kept feed inst w w' same (IsSeen.seen bars got many (p, h, old)) =
      IsSeen.seen bars got many (p, same ∙ h, old)

  -- Ticks that log no error: no instance's row changes, and each has nothing left to do.
  run_ticks-IsSeen :
      (strat : Strategy R) (round : Round R) (is : List StrategyInstance) (w : World R)
      → IsKeyed is
      → (run_ticks strat round is w).1 ≡ []
      → ((run_ticks strat round is w).0.db.instances ≡ w.db.instances)
        × All
            (λ (i : StrategyInstance). IsSeen (round.feed i.id) i (run_ticks strat round is w).0)
            is
  unfolding run_ticks
  run_ticks-IsSeen strat round [] w keyed ok = (refl, tt)
  run_ticks-IsSeen strat round (i ∷ is) w (apart, keyed) ok =
      let here = tick strat (round.fails i.id) (round.feed i.id) i w in
      let good : here.1 ≡ false = ground arith in
      let later : (run_ticks strat round is here.0).1 ≡ [] = rw good at ok in
      let (rows, rest) = run_ticks-IsSeen strat round is here.0 keyed later in
      let done : IsSeen (round.feed i.id) i here.0 =
        tick-IsSeen strat (round.fails i.id) (round.feed i.id) i w here.0 (λ k. (here.0, good k)) in
      let (kept, _, _) = run_ticks-IsUntouched strat round i.id is here.0 apart in
      (
        rows ∙ tick-instances strat (round.fails i.id) (round.feed i.id) i w good,
        (
          IsSeen-kept (round.feed i.id) i here.0 (run_ticks strat round is here.0).0 kept done,
          rest,
        ),
      )

  -- What the ticks of a later round meet: the same bars, and account rows that can be read.
  abbrev pub IsRepeat : Round R → Round R → Type 0
  IsRepeat round round' =
      (id : ℕ)
      → ((round'.feed id).bars ≡ (round.feed id).bars) × ((round'.fails id).find_portfolio ≡ false)

  run_ticks-seen :
      (strat : Strategy R) (round round' : Round R) (is : List StrategyInstance) (w : World R)
      → IsRepeat round round'
      → All (λ (i : StrategyInstance). IsSeen (round.feed i.id) i w) is
      → run_ticks strat round' is w ≡ (w, [])
  unfolding run_ticks
  run_ticks-seen strat round round' [] w repeat h = refl
  run_ticks-seen strat round round' (i ∷ is) w repeat (here, h) =
      let (same, ok) = repeat i.id in
      let idle =
        tick-seen strat (round'.fails i.id) (round.feed i.id) (round'.feed i.id) i w same ok here in
      let rest = run_ticks-seen strat round round' is w repeat h in rw (idle, run_ticks, rest) refl

  -- After a scan that logged no error, a further scan on the same bars changes nothing, and logs
  -- the failure of its own query if that fails and else no error, whatever the champions, the
  -- clock, the agents and other failing calls, where no two instances share an id and the account
  -- rows can be read: each bar is traded once.
  pub scan-once :
      (strat : Strategy R) (round round' : Round R) (query_fails : Bool) (w : World R)
      → IsKeyed w.db.instances
      → IsRepeat round round'
      → (scan strat round false w).1 ≡ []
      → let w' = (scan strat round false w).0 in
        scan strat round' query_fails w' ≡ (w', if query_fails then query_failed ∷ [] else [])
  unfolding scan
  scan-once strat round round' true w keyed repeat ok = refl
  scan-once strat round round' false w keyed repeat ok =
      let is = running_in w.db.instances in
      let (rows, done) =
        run_ticks-IsSeen strat round is w (running_in-IsKeyed w.db.instances keyed) ok in
      rw rows (run_ticks-seen strat round round' is (run_ticks strat round is w).0 repeat done)
