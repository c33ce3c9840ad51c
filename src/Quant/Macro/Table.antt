-- ===== src/Quant/Macro/Table.antt =====
-- internal/quant/macro_engine.go: the whole decision of a tick, by the table of its tiers.
use trandingnok.Base.{
  ℕ, ◌≡◌, ◌≢◌, refl, ◌⊎◌, inl, inr, true, false, none, some, List, [], ◌∷◌, ◌++◌, arith,
  if◌then◌else◌, All, Bool-cases, ◌==◌,
}
use trandingnok.Float.{Float64, ◌⊖◌, ◌⊗◌, ◌≺◌, ◌≼◌, lit, nought}
use trandingnok.Quant.Data.{RuntimeState, eqb_month, Action, Engine, LotType}
use trandingnok.Quant.Maths.{round_to_usdt}
use trandingnok.Quant.Macro.{
  MacroInput, MacroOutput, Tier, contains_int, tiers, fire_tiers, roll_month,
  compute_macro_decision,
}

contains_int-absent : (xs : List ℕ) (k : ℕ) → contains_int xs k ≡ false → All (λ (j : ℕ). j ≢ k) xs
unfolding contains_int
contains_int-absent [] k h = tt
contains_int-absent (x ∷ xs) k h = elim (Bool-cases (x == k)) [
  | inl hit ↦ absurd (ground arith)
  | inr miss ↦ (λ e. ground arith, contains_int-absent xs k (rw miss at h))
]

contains_int-present :
    (xs : List ℕ) (k : ℕ) → contains_int xs k ≡ true → ¬ (All (λ (j : ℕ). j ≢ k) xs)
unfolding contains_int
contains_int-present [] k h all_ = ground arith
contains_int-present (x ∷ xs) k h (p, ps) = elim (Bool-cases (x == k)) [
  | inl hit ↦ p (ground arith)
  | inr miss ↦ contains_int-present xs k (rw miss at h) ps
]

module _ {R : Type 0} ⦃f : Float64 R⦄ where
  -- What the month's roll makes of a runtime state.
  pub data Rolled (i : MacroInput R) (rt : RuntimeState R) : Type 0 where
    new_month :
        eqb_month i.month_str i.rt.month_str ≡ false
        → rt ≡ record (i.rt) { month_str = i.month_str; month_high = i.price; triggered_tiers = [] }
        → Rolled i rt
    higher :
        eqb_month i.month_str i.rt.month_str ≡ true
        → (i.rt.month_high ≺ i.price) ≡ true
        → rt ≡ record (i.rt) { month_high = i.price }
        → Rolled i rt
    kept :
        eqb_month i.month_str i.rt.month_str ≡ true
        → (i.rt.month_high ≺ i.price) ≡ false
        → rt ≡ i.rt
        → Rolled i rt

  -- A tier with a multiplier of the drop and a share of the capital is due: the price is below its
  -- level under the month's high, it did not fire this month, and its order is at least 10.1.
  pub record IsDue (i : MacroInput R) (rt : RuntimeState R) (k : ℕ) (mul share : R) : Type 0 where
    pub below : ((rt.month_high ⊗ (lit 1 0 ⊖ i.params.dca_drop_pct ⊗ mul)) ≼ i.price) ≡ false
    pub unfired : All (λ (j : ℕ). j ≢ k) rt.triggered_tiers
    pub large : (round_to_usdt (i.portfolio.spendable_usdt ⊗ share) ≺ lit 101 1) ≡ false

  -- The purchase of a tier for the dead stack, at most the rounded capital, which marks the tier.
  abbrev pub Buys : MacroInput R → RuntimeState R → ℕ → R → MacroOutput R → Type 0
  Buys i rt k share o =
      let capital = i.portfolio.spendable_usdt in
      let asked = round_to_usdt (capital ⊗ share) in
      (o.intent
        ≡ some (record {
          action = Action.buy;
          engine = Engine.macro;
          lot_type = LotType.dead_stack;
          amount_usdt = if capital ≺ asked then round_to_usdt capital else asked;
          qty_asset = nought;
        }))
      × (o.rt ≡ record rt { triggered_tiers = rt.triggered_tiers ++ (k ∷ []) })

  abbrev pub Waits : RuntimeState R → MacroOutput R → Type 0
  Waits rt o = (o.intent ≡ none) × (o.rt ≡ rt)

  -- The table: the first tier that is due buys; without capital, a month high or a due tier,
  -- nothing happens.
  pub data Decides (i : MacroInput R) (rt : RuntimeState R) (o : MacroOutput R) : Type 0 where
    broke : (i.portfolio.spendable_usdt ≼ nought) ≡ true → Waits rt o → Decides i rt o
    no_high : (rt.month_high ≼ nought) ≡ true → Waits rt o → Decides i rt o
    first :
        (i.portfolio.spendable_usdt ≼ nought) ≡ false
        → (rt.month_high ≼ nought) ≡ false
        → IsDue i rt 1 (lit 10 1) (lit 5 2)
        → Buys i rt 1 (lit 5 2) o
        → Decides i rt o
    second :
        (i.portfolio.spendable_usdt ≼ nought) ≡ false
        → (rt.month_high ≼ nought) ≡ false
        → ¬ (IsDue i rt 1 (lit 10 1) (lit 5 2))
        → IsDue i rt 2 (lit 15 1) (lit 10 2)
        → Buys i rt 2 (lit 10 2) o
        → Decides i rt o
    third :
        (i.portfolio.spendable_usdt ≼ nought) ≡ false
        → (rt.month_high ≼ nought) ≡ false
        → ¬ (IsDue i rt 1 (lit 10 1) (lit 5 2))
        → ¬ (IsDue i rt 2 (lit 15 1) (lit 10 2))
        → IsDue i rt 3 (lit 20 1) (lit 15 2)
        → Buys i rt 3 (lit 15 2) o
        → Decides i rt o
    none_due :
        (i.portfolio.spendable_usdt ≼ nought) ≡ false
        → (rt.month_high ≼ nought) ≡ false
        → ¬ (IsDue i rt 1 (lit 10 1) (lit 5 2))
        → ¬ (IsDue i rt 2 (lit 15 1) (lit 10 2))
        → ¬ (IsDue i rt 3 (lit 20 1) (lit 15 2))
        → Waits rt o
        → Decides i rt o

  abbrev tier_of : MacroInput R → RuntimeState R → ℕ → R → R → Tier R
  tier_of i rt k mul share = record {
    id = k;
    trigger = rt.month_high ⊗ (lit 1 0 ⊖ i.params.dca_drop_pct ⊗ mul);
    spend_pct = share;
  }

  -- One round of the loop over the tiers.
  fire_tiers-IsDue :
      (i : MacroInput R) (rt : RuntimeState R) (k : ℕ) (mul share : R) (ts : List (Tier R))
      → let o = fire_tiers (tier_of i rt k mul share ∷ ts) i.price i.portfolio.spendable_usdt rt in
        IsDue i rt k mul share × Buys i rt k share o
        ⊎ (¬ (IsDue i rt k mul share)) × (o ≡ fire_tiers ts i.price i.portfolio.spendable_usdt rt)
  unfolding fire_tiers
  fire_tiers-IsDue i rt k mul share ts =
      let level = rt.month_high ⊗ (lit 1 0 ⊖ i.params.dca_drop_pct ⊗ mul) in
      elim (Bool-cases (level ≼ i.price)) [
        | inl above ↦ inr (λ due. ground (arith, due.below), rw above refl)
        | inr below ↦ elim (Bool-cases (contains_int rt.triggered_tiers k)) [
          | inl fired ↦ inr (
            λ due. contains_int-present rt.triggered_tiers k fired due.unfired,
            rw (below, fired) refl,
          )
          | inr unfired ↦
              elim (Bool-cases (round_to_usdt (i.portfolio.spendable_usdt ⊗ share) ≺ lit 101 1)) [
                | inl small ↦
                    inr (λ due. ground (arith, due.large), rw (below, unfired, small) refl)
                | inr large ↦ inl (
                  record {
                    below = below;
                    unfired = contains_int-absent rt.triggered_tiers k unfired;
                    large = large;
                  },
                  rw (below, unfired, large) (refl, refl),
                )
              ]
        ]
      ]

  Decides-tiers :
      (i : MacroInput R) (rt : RuntimeState R)
      → (i.portfolio.spendable_usdt ≼ nought) ≡ false
      → (rt.month_high ≼ nought) ≡ false
      → Decides i rt (
          fire_tiers
            (tiers rt.month_high i.params.dca_drop_pct)
            i.price
            i.portfolio.spendable_usdt
            rt)
  unfolding fire_tiers
  Decides-tiers i rt capital high =
      let t3 = tier_of i rt 3 (lit 20 1) (lit 15 2) in
      let t2 = tier_of i rt 2 (lit 15 1) (lit 10 2) in
      elim (fire_tiers-IsDue i rt 1 (lit 10 1) (lit 5 2) (t2 ∷ t3 ∷ [])) [
        | inl (due, buys) ↦ Decides.first capital high due buys
        | inr (not1, e1) ↦ elim (fire_tiers-IsDue i rt 2 (lit 15 1) (lit 10 2) (t3 ∷ [])) [
          | inl (due, buys) ↦ rw e1 (Decides.second capital high not1 due buys)
          | inr (not2, e2) ↦ elim (fire_tiers-IsDue i rt 3 (lit 20 1) (lit 15 2) []) [
            | inl (due, buys) ↦ rw (e1, e2) (Decides.third capital high not1 not2 due buys)
            | inr (not3, e3) ↦
                rw (e1, e2, e3) (Decides.none_due capital high not1 not2 not3 (refl, refl))
          ]
        ]
      ]

  roll_month-Rolled : (i : MacroInput R) → Rolled i (roll_month i)
  unfolding roll_month
  roll_month-Rolled i = elim (Bool-cases (eqb_month i.month_str i.rt.month_str)) [
    | inr new ↦ Rolled.new_month new (rw new refl)
    | inl same ↦ elim (Bool-cases (i.rt.month_high ≺ i.price)) [
      | inl up ↦ Rolled.higher same up (rw (same, up) refl)
      | inr down ↦ Rolled.kept same down (rw (same, down) refl)
    ]
  ]

  -- The decision of every tick. First the month rolls: a new month starts with its first price as
  -- the high and no fired tier, a running month keeps the greatest price. Then, with capital to
  -- spend and a positive high, the first of the three tiers buys that is due: 1.0, 1.5 and 2.0
  -- times the drop below the high for 5%, 10% and 15% of the capital, not yet fired this month, and
  -- with an order of at least 10.1 USDT. It buys for the dead stack, by at most the rounded
  -- capital, and marks that tier alone; in all other cases nothing is bought or marked.
  pub compute_macro_decision-Decides :
      (i : MacroInput R)
      → (rt : RuntimeState R) × Rolled i rt × Decides i rt (compute_macro_decision i)
  unfolding compute_macro_decision
  compute_macro_decision-Decides i =
      let rt = roll_month i in
      let decides : Decides i rt (compute_macro_decision i) =
        elim (Bool-cases (i.portfolio.spendable_usdt ≼ nought)) [
          | inl spent ↦ rw (compute_macro_decision, spent) (Decides.broke spent (refl, refl))
          | inr capital ↦ elim (Bool-cases (rt.month_high ≼ nought)) [
            | inl none_ ↦
                rw (compute_macro_decision, capital, none_) (Decides.no_high none_ (refl, refl))
            | inr high ↦
                rw (compute_macro_decision, capital, high) (Decides-tiers i rt capital high)
          ]
        ] in
      (rt, roll_month-Rolled i, decides)
