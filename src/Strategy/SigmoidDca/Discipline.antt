-- ===== src/Strategy/SigmoidDca/Discipline.antt =====
-- internal/strategies/sigmoid_dca/step.go: which engine may trade, and when.
use trandingnok.Base.{
  ◌≤◌, ◌<◌, ◌≡◌, refl, ◌⊎◌, inl, inr, true, Option, none, some, List, [], ◌∷◌, ◌++◌, arith, length,
  All, length-append, All-append, All-mono,
}
use trandingnok.Float.{Float64}
use trandingnok.Quant.Data.{RuntimeState, MonthStr, TradeIntent, Action, Engine, LotType}
use trandingnok.Quant.Market.{State, quiet, bear, bull, compute_market_state}
use trandingnok.Quant.Macro.{
  Tier, MacroInput, compute_macro_decision, fire_tiers, roll_month, tiers,
}
use trandingnok.Quant.Micro.{MicroInput, compute_micro_decision}
use trandingnok.Strategy.Types.{StrategyInput}
use trandingnok.Strategy.SigmoidDca.{
  min_bars_required, to_list, run_macro, run_micro, run_release, run_engine, last_price,
  last_month_str, market_input, step,
}

length-to_list : {A : Type 0} (o : Option A) → length (to_list o) ≤ 1
length-to_list none = omega arith
length-to_list (some a) = omega arith

module _ {R : Type 0} ⦃f : Float64 R⦄ where
  abbrev pub IsMacroBuy : TradeIntent R → Type 0
  IsMacroBuy t =
      (t.action ≡ Action.buy) × (t.engine ≡ Engine.macro) × (t.lot_type ≡ LotType.dead_stack)

  abbrev pub IsMicroSell : TradeIntent R → Type 0
  IsMicroSell t =
      (t.action ≡ Action.sell) × (t.engine ≡ Engine.micro) × (t.lot_type ≡ LotType.floating)

  abbrev pub IsRelease : TradeIntent R → Type 0
  IsRelease t =
      (t.action ≡ Action.release) × (t.engine ≡ Engine.macro) × (t.lot_type ≡ LotType.dead_stack)

  -- What an intent may be in a market state.
  abbrev pub Permitted : State → TradeIntent R → Type 0
  Permitted s t = (IsMacroBuy t × (s ≡ bear)) ⊎ (IsMicroSell t × (s ≡ bull)) ⊎ IsRelease t

  fire_tiers-IsMacroBuy :
      (ts : List (Tier R)) (price spendable : R) (rt : RuntimeState R)
      → All IsMacroBuy (to_list (fire_tiers ts price spendable rt).intent)
        × ((fire_tiers ts price spendable rt).rt.stop_loss_hit ≡ rt.stop_loss_hit)
  unfolding fire_tiers
  fire_tiers-IsMacroBuy [] price spendable rt = (tt, refl)
  fire_tiers-IsMacroBuy (t ∷ ts) price spendable rt =
      ground (arith, fire_tiers-IsMacroBuy ts price spendable rt)

  pub macro-IsMacroBuy :
      (i : MacroInput R)
      → All IsMacroBuy (to_list (compute_macro_decision i).intent)
        × ((compute_macro_decision i).rt.stop_loss_hit ≡ i.rt.stop_loss_hit)
  unfolding compute_macro_decision roll_month
  macro-IsMacroBuy i =
      let ts = tiers (roll_month i).month_high i.params.dca_drop_pct in
      ground (arith, fire_tiers-IsMacroBuy ts i.price i.portfolio.spendable_usdt (roll_month i))

  micro-IsMicroSell :
      (i : MicroInput R) → All IsMicroSell (to_list (compute_micro_decision i).intent)
  unfolding compute_micro_decision
  micro-IsMicroSell i = ground arith

  engine-Permitted :
      (s : State) (price : R) (m : MonthStr) (i : StrategyInput R) (rt : RuntimeState R)
      → All (Permitted s) (run_engine s price m i rt).0 × (length (run_engine s price m i rt).0 ≤ 1)
  unfolding run_engine run_macro run_micro
  engine-Permitted quiet price m i rt = (tt, omega arith)
  engine-Permitted bear price m i rt =
      let o = run_macro price i.portfolio i.params rt m in
      (
        All-mono (to_list o.intent) (λ t h. inl (h, refl)) (macro-IsMacroBuy _).0,
        length-to_list o.intent,
      )
  engine-Permitted bull price m i rt =
      let o = run_micro price rt.ema200 i.portfolio i.params rt in
      (
        All-mono (to_list o.intent) (λ t h. inr (inl (h, refl))) (micro-IsMicroSell _),
        length-to_list o.intent,
      )

  release-Permitted :
      (s : State) (o : StrategyInput R) (price : R)
      → All (Permitted s) (to_list (run_release o.portfolio o.spawn_point price))
  unfolding run_release
  release-Permitted s o price = ground arith

  -- A step decides on at most two intents: at most one of the engine that the market state lets
  -- run (a macro purchase in BEAR, a micro sale in BULL, none in QUIET), then at most one release.
  -- With fewer than 24 bars, or in QUIET, it decides on nothing; a short history also leaves the
  -- runtime state as it is.
  pub step-Permitted :
      (i : StrategyInput R)
      → let out = step i in
        let ms = (compute_market_state (market_input i)).0 in
        All (Permitted ms.state) out.intents
        × (length out.intents ≤ 2)
        × (length i.closes < min_bars_required → (out.intents ≡ []) × (out.runtime ≡ i.runtime))
        × (ms.is_quiet ≡ true → out.intents ≡ [])
  unfolding step
  step-Permitted i =
      let (ms, rt) = compute_market_state (market_input i) in
      let price = last_price i in
      let engine = run_engine ms.state price (last_month_str i) i rt in
      let rel = to_list (run_release i.portfolio i.spawn_point price) in
      let (can, one) = engine-Permitted ms.state price (last_month_str i) i rt in
      let both =
        All-append (Permitted ms.state) engine.0 rel can (release-Permitted ms.state i price) in
      let two : length (engine.0 ++ rel) ≤ 2 = omega (
        arith,
        length-append engine.0 rel,
        length-to_list (run_release i.portfolio i.spawn_point price),
      ) in
      ground arith
