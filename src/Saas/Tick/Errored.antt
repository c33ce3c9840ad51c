-- ===== src/Saas/Tick/Errored.antt =====
-- internal/saas/instance/manager.go: the state of an instance after a tick that failed.
use trandingnok.Base.{
  ℕ, suc, ◌≡◌, ◌⊎◌, refl, ap, inl, inr, Bool, true, false, none, List, [], ◌∷◌, arith, Bool-cases,
}
use trandingnok.Float.{Float64}
use trandingnok.Strategy.Types.{Strategy}
use trandingnok.Saas.Store.{running, errored, StrategyInstance, find_first, update_where}
use trandingnok.Saas.Lifecycle.{in_status, change_status, mark_error, apply_op}
use trandingnok.Saas.Lifecycle.Moves.{Rows, eqb_status_eq}
use trandingnok.Saas.Dispatch.{World}
use trandingnok.Saas.Load.{TickFaults, Feed}
use trandingnok.Saas.Tick.{tick_body, tick}
use trandingnok.Saas.Tick.Isolated.{tick_body-Keeps}

-- The same row, or the row of an instance that was running, now in ERROR.
abbrev pub Fails : ℕ → StrategyInstance → StrategyInstance → Type 0
Fails id i j = (j ≡ i) ⊎ ((i.id ≡ id) × (i.status ≡ running) × (j ≡ record i { status = errored }))

in_status_lem :
    (id : ℕ) (i : StrategyInstance)
    → in_status id running i ≡ true
    → (i.id ≡ id) × (i.status ≡ running)
in_status_lem id i h = (ground arith, eqb_status_eq i.status running (ground arith))

fail_all-Fails :
    (id : ℕ) (is : List StrategyInstance)
    → (find_first
          (in_status id running)
          (update_where (in_status id running) (λ i. record i { status = errored }) is)
        ≡ none)
      × Rows
          (Fails id)
          is
          (update_where (in_status id running) (λ i. record i { status = errored }) is)
fail_all-Fails id [] = (refl, tt)
fail_all-Fails id (i ∷ is) =
    let (gone, rows) = fail_all-Fails id is in
    elim (Bool-cases (in_status id running i)) [
      | inl hit ↦
          let (mine, ran) = in_status_lem id i hit in
          let past : in_status id running (record i { status = errored }) ≡ false = ground arith in
          (rw (hit, past) gone, rw hit (inr (mine, ran, refl), rows))
      | inr miss ↦ (rw (miss, miss) gone, rw miss (inl refl, rows))
    ]

mark_error-Fails :
    (fails : Bool) (id : ℕ) (is : List StrategyInstance)
    → fails ≡ false
    → (find_first (in_status id running) (apply_op (mark_error fails id) is).0 ≡ none)
      × Rows (Fails id) is (apply_op (mark_error fails id) is).0
unfolding apply_op change_status
mark_error-Fails false id is ok = fail_all-Fails id is
mark_error-Fails true id is ok = absurd (ground arith)

module _ {R : Type 0} ⦃f : Float64 R⦄ where
  -- After a tick that returned an error, where the update of the status succeeds, the instance is
  -- not RUNNING: rows of it that were are in ERROR, and every other row of an instance is as it was.
  pub tick-Errored :
      (strat : Strategy R) (fails : TickFaults) (feed : Feed R) (inst : StrategyInstance)
      (w w' : World R)
      → tick strat fails feed inst w ≡ (w', true)
      → fails.mark_error ≡ false
      → (find_first (in_status inst.id running) w'.db.instances ≡ none)
        × Rows (Fails inst.id) w.db.instances w'.db.instances
  unfolding tick
  tick-Errored strat fails feed inst w w' e ok =
      let body = tick_body strat fails feed inst w in
      let kept : body.0.db.instances ≡ w.db.instances =
        (tick_body-Keeps (suc inst.id) strat fails feed inst w (λ q. absurd (omega arith))).2 in
      elim (Bool-cases (body.1)) [
        | inl bad ↦
            let op = mark_error fails.mark_error inst.id in
            let ends : (apply_op op body.0.db.instances).0 ≡ w'.db.instances =
              ap (λ r. r.0.db.instances) (rw (tick, bad) at e) in
            rw (← ends, kept) (mark_error-Fails fails.mark_error inst.id w.db.instances ok)
        | inr good ↦ absurd (ground arith)
      ]
