-- ===== src/Quant/Macro/Tiers.antt =====
-- internal/quant/macro_engine.go: what the tiers may buy, in one tick and over a month.
use trandingnok.Base.{
  ◌∙◌, ap, sym, ℕ, ◌+◌, ◌≤◌, ◌≡◌, refl, ◌⊎◌, inl, inr, true, false, ◌||◌, Option, none, some, List,
  [], ◌∷◌, ◌++◌, arith, ◌==◌, if◌then◌else◌, All,
}
use trandingnok.Float.{Float64, ◌⊗◌, ◌≺◌, ◌≼◌, nought}
use trandingnok.Quant.Data.{RuntimeState, MonthStr, unset, month, other, eqb_month, TradeIntent}
use text.Mathlib.TextPositions.{eq_refl}
use trandingnok.Quant.Maths.{round_to_usdt}
use trandingnok.Quant.Macro.{
  MacroInput, MacroOutput, Tier, contains_int, macro_min_order_usdt, tiers, clamp_amount, macro_buy,
  fire_tiers, roll_month, compute_macro_decision,
}

contains_int-append :
    (xs : List ℕ) (k v : ℕ) → contains_int (xs ++ (k ∷ [])) v ≡ (contains_int xs v || k == v)
unfolding contains_int
contains_int-append [] k v = ground arith
contains_int-append (x ∷ xs) k v = ground (arith, contains_int-append xs k v)

-- One for a tier that has not fired, by the list of those that have.
abbrev open_tier : List ℕ → ℕ → ℕ
open_tier fired k = if contains_int fired k then 0 else 1

-- How many of the three tiers have not fired.
abbrev pub open_tiers : List ℕ → ℕ
open_tiers fired = open_tier fired 1 + open_tier fired 2 + open_tier fired 3

abbrev IsTierId : ℕ → Type 0
IsTierId k = (k ≡ 1) ⊎ (k ≡ 2) ⊎ (k ≡ 3)

open_tiers-append :
    (fired : List ℕ) (k : ℕ)
    → IsTierId k
    → contains_int fired k ≡ false
    → open_tiers (fired ++ (k ∷ [])) + 1 ≡ open_tiers fired
open_tiers-append fired k (inl e) h = ground (
  arith,
  contains_int-append fired k 1,
  contains_int-append fired k 2,
  contains_int-append fired k 3,
)
open_tiers-append fired k (inr (inl e)) h = ground (
  arith,
  contains_int-append fired k 1,
  contains_int-append fired k 2,
  contains_int-append fired k 3,
)
open_tiers-append fired k (inr (inr e)) h = ground (
  arith,
  contains_int-append fired k 1,
  contains_int-append fired k 2,
  contains_int-append fired k 3,
)

eqb_month_refl : (m : MonthStr) → eqb_month m m ≡ true
eqb_month_refl unset = refl
eqb_month_refl (month y n) = ground arith
eqb_month_refl (other s) = eq_refl s

module _ {R : Type 0} ⦃f : Float64 R⦄ where
  -- A tier fired: its trigger lies above the price, it had not fired, its order is large enough.
  pub record Fires (t : Tier R) (price spendable : R) (rt : RuntimeState R) (o : MacroOutput R)
      : Type 0 where
    pub dropped : (t.trigger ≼ price) ≡ false
    pub unfired : contains_int rt.triggered_tiers t.id ≡ false
    pub large : (round_to_usdt (spendable ⊗ t.spend_pct) ≺ macro_min_order_usdt) ≡ false
    pub bought :
        o.intent
        ≡ some (macro_buy (clamp_amount (round_to_usdt (spendable ⊗ t.spend_pct)) spendable))
    pub marked : o.rt ≡ record rt { triggered_tiers = rt.triggered_tiers ++ (t.id ∷ []) }

  abbrev pub FiresOne : List (Tier R) → R → R → RuntimeState R → MacroOutput R → Type 0
  FiresOne [] price spendable rt o = ⊥
  FiresOne (t ∷ ts) price spendable rt o =
      Fires t price spendable rt o ⊎ FiresOne ts price spendable rt o

  abbrev pub Idle : RuntimeState R → MacroOutput R → Type 0
  Idle rt o = (o.intent ≡ none) × (o.rt ≡ rt)

  fire_tiers_cases :
      (ts : List (Tier R)) (price spendable : R) (rt : RuntimeState R)
      → Idle rt (fire_tiers ts price spendable rt)
        ⊎ FiresOne ts price spendable rt (fire_tiers ts price spendable rt)
  unfolding fire_tiers
  fire_tiers_cases [] price spendable rt = inl (refl, refl)
  fire_tiers_cases (t ∷ ts) price spendable rt =
      ground (arith, fire_tiers_cases ts price spendable rt)

  -- In every tick the macro engine either does nothing to the state that the month's roll gives, or
  -- fires one of the three tiers, once in a month, with capital to spend and a positive month high:
  -- it buys for the dead stack, by at least the least order, and marks that tier alone.
  pub compute_macro_decision_cases :
      (i : MacroInput R)
      → let rt = roll_month i in
        let o = compute_macro_decision i in
        Idle rt o
        ⊎ ((i.portfolio.spendable_usdt ≼ nought) ≡ false)
          × ((rt.month_high ≼ nought) ≡ false)
          × FiresOne
              (tiers rt.month_high i.params.dca_drop_pct)
              i.price
              i.portfolio.spendable_usdt
              rt
              o
  unfolding compute_macro_decision
  compute_macro_decision_cases i =
      let rt = roll_month i in
      ground (
        arith,
        fire_tiers_cases (tiers rt.month_high i.params.dca_drop_pct) i.price
            i.portfolio.spendable_usdt rt,
      )

  abbrev ordered : Option (TradeIntent R) → ℕ
  ordered none = 0
  ordered (some t) = 1

  -- The macro orders of a sequence of ticks, each on the state that the last one left.
  pub count_orders : List (MacroInput R) → RuntimeState R → ℕ
  count_orders [] rt = 0
  count_orders (i ∷ is) rt =
      let o = compute_macro_decision (record i { rt = rt }) in
      ordered o.intent + count_orders is o.rt

  -- A tick pays for its order with an open tier.
  abbrev Pays : RuntimeState R → MacroOutput R → Type 0
  Pays rt o =
      (ordered o.intent + open_tiers o.rt.triggered_tiers ≤ open_tiers rt.triggered_tiers)
      × (o.rt.month_str ≡ rt.month_str)

  Fires-Pays :
      (t : Tier R) (price spendable : R) (rt : RuntimeState R) (o : MacroOutput R)
      → IsTierId t.id
      → Fires t price spendable rt o
      → Pays rt o
  Fires-Pays t price spendable rt o k h =
      let e = open_tiers-append rt.triggered_tiers t.id k h.unfired in
      rw (h.bought, h.marked) ((omega arith), refl)

  tiers-Pays :
      (high drop_pct price spendable : R) (rt : RuntimeState R) (o : MacroOutput R)
      → FiresOne (tiers high drop_pct) price spendable rt o
      → Pays rt o
  tiers-Pays high drop_pct price spendable rt o (inl h) =
      Fires-Pays _ price spendable rt o (inl refl) h
  tiers-Pays high drop_pct price spendable rt o (inr (inl h)) =
      Fires-Pays _ price spendable rt o (inr (inl refl)) h
  tiers-Pays high drop_pct price spendable rt o (inr (inr (inl h))) =
      Fires-Pays _ price spendable rt o (inr (inr refl)) h
  tiers-Pays high drop_pct price spendable rt o (inr (inr (inr h))) = absurd h

  tick-Pays : (i : MacroInput R) → Pays (roll_month i) (compute_macro_decision i)
  tick-Pays i = elim (compute_macro_decision_cases i) [
    | inl (none_, same) ↦ rw (none_, same) ((omega arith), refl)
    | inr (_, _, h) ↦ tiers-Pays _ _ _ _ _ _ h
  ]

  -- After the roll the state belongs to the month of the tick.
  roll_month-month :
      (i : MacroInput R)
      → (eqb_month i.month_str (roll_month i).month_str ≡ true)
        × (open_tiers (roll_month i).triggered_tiers ≤ 3)
  unfolding roll_month
  roll_month-month i = ground (arith, eqb_month_refl i.month_str)

  roll_month_same :
      (i : MacroInput R)
      → eqb_month i.month_str i.rt.month_str ≡ true
      → ((roll_month i).triggered_tiers ≡ i.rt.triggered_tiers)
        × ((roll_month i).month_str ≡ i.rt.month_str)
  unfolding roll_month
  roll_month_same i e = ground arith

  count_orders-le_open :
      (m : MonthStr) (is : List (MacroInput R)) (rt : RuntimeState R)
      → All (λ i. i.month_str ≡ m) is
      → eqb_month m rt.month_str ≡ true
      → count_orders is rt ≤ open_tiers rt.triggered_tiers
  unfolding count_orders
  count_orders-le_open m [] rt h e = omega arith
  count_orders-le_open m (i ∷ is) rt (hm, hs) e =
      let j : MacroInput R = record i { rt = rt } in
      let e' : eqb_month j.month_str rt.month_str ≡ true = rw hm e in
      let (fired, same) = roll_month_same j e' in
      let (pays, kept) = tick-Pays j in
      let ih = count_orders-le_open m is (compute_macro_decision j).rt hs (rw (kept, same) e) in
      let le : open_tiers (roll_month j).triggered_tiers ≤ open_tiers rt.triggered_tiers =
        rw fired (omega arith) in
      omega arith

  -- Over any ticks of one month, from any state, the macro engine places at most three orders.
  pub count_orders-le_three :
      (m : MonthStr) (is : List (MacroInput R)) (rt : RuntimeState R)
      → All (λ i. i.month_str ≡ m) is
      → count_orders is rt ≤ 3
  unfolding count_orders
  count_orders-le_three m [] rt h = omega arith
  count_orders-le_three m (i ∷ is) rt (hm, hs) =
      let j : MacroInput R = record i { rt = rt } in
      let (current, three) = roll_month-month j in
      let (pays, kept) = tick-Pays j in
      let ih =
        count_orders-le_open m is (compute_macro_decision j).rt hs
          (rw kept (ap (λ x. eqb_month x (roll_month j).month_str) (sym hm) ∙ current)) in
      omega arith
