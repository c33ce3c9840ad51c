-- ===== src/Quant/Macro.antt =====
-- internal/quant/macro_engine.go: the monthly price-drop tiers.
pub mod Tiers
pub mod Table
use trandingnok.Base.{
  ℕ, Bool, true, false, not, ◌||◌, Option, none, some, List, [], ◌∷◌, ◌++◌, ◌==◌, if◌then◌else◌,
}
use trandingnok.Float.{Float64, ◌⊖◌, ◌⊗◌, ◌≺◌, ◌≼◌, lit, nought}
use trandingnok.Quant.Data.{
  PortfolioState, RuntimeState, MonthStr, eqb_month, TradeIntent, Action, Engine, LotType,
}
use trandingnok.Quant.Maths.{round_to_usdt}
use trandingnok.Quant.Genome.{Chromosome}

pub record MacroInput (R : Type 0) : Type 0 where
  pub price : R
  pub portfolio : PortfolioState R
  pub params : Chromosome R
  pub rt : RuntimeState R
  pub month_str : MonthStr

pub record MacroOutput (R : Type 0) : Type 0 where
  pub intent : Option (TradeIntent R)
  pub rt : RuntimeState R

pub record Tier (R : Type 0) : Type 0 where
  pub id : ℕ
  pub trigger : R
  pub spend_pct : R

-- `containsInt`.
unfoldable pub contains_int : List ℕ → ℕ → Bool
contains_int [] v = false
contains_int (x ∷ xs) v = if x == v then true else contains_int xs v

module _ {R : Type 0} ⦃f : Float64 R⦄ where
  abbrev pub macro_min_order_usdt : R
  macro_min_order_usdt = lit 101 1

  -- A price level below the month's high by `drop` times a multiplier.
  abbrev pub tier_trigger : R → R → R → R
  tier_trigger month_high drop_pct mul = month_high ⊗ (lit 1 0 ⊖ drop_pct ⊗ mul)

  abbrev pub tiers : R → R → List (Tier R)
  tiers month_high drop_pct =
      record { id = 1; trigger = tier_trigger month_high drop_pct (lit 10 1); spend_pct = lit 5 2 }
      ∷ record {
        id = 2;
        trigger = tier_trigger month_high drop_pct (lit 15 1);
        spend_pct = lit 10 2;
      }
      ∷ record {
        id = 3;
        trigger = tier_trigger month_high drop_pct (lit 20 1);
        spend_pct = lit 15 2;
      }
      ∷ []

  -- The order that a tier spends: a rounded share, clamped to the available capital.
  abbrev pub clamp_amount : R → R → R
  clamp_amount amount spendable = if spendable ≺ amount then round_to_usdt spendable else amount

  abbrev pub macro_buy : R → TradeIntent R
  macro_buy amount = record {
    action = Action.buy;
    engine = Engine.macro;
    lot_type = LotType.dead_stack;
    amount_usdt = amount;
    qty_asset = nought;
  }

  -- The loop over the tiers: the first that fires ends it.
  unfoldable pub fire_tiers : List (Tier R) → R → R → RuntimeState R → MacroOutput R
  fire_tiers [] price spendable rt = record { intent = none; rt = rt }
  fire_tiers (t ∷ ts) price spendable rt =
      let rest = fire_tiers ts price spendable rt in
      if t.trigger ≼ price
      then rest
      else if contains_int rt.triggered_tiers t.id
      then rest
      else (let amount = round_to_usdt (spendable ⊗ t.spend_pct) in
          if amount ≺ macro_min_order_usdt then rest else record {
            intent = some (macro_buy (clamp_amount amount spendable));
            rt = record rt { triggered_tiers = rt.triggered_tiers ++ (t.id ∷ []) };
          })

  -- The monthly reset, or the running month-high.
  unfoldable pub roll_month : MacroInput R → RuntimeState R
  roll_month i =
      let rt = i.rt in
      if not (eqb_month i.month_str rt.month_str)
      then record rt { month_str = i.month_str; month_high = i.price; triggered_tiers = [] }
      else if rt.month_high ≺ i.price
      then record rt { month_high = i.price }
      else rt

  -- `ComputeMacroDecision`.
  unfoldable pub compute_macro_decision : MacroInput R → MacroOutput R
  compute_macro_decision i =
      let rt = roll_month i in
      if i.portfolio.spendable_usdt ≼ nought || rt.month_high ≼ nought
      then record { intent = none; rt = rt }
      else fire_tiers (tiers rt.month_high i.params.dca_drop_pct) i.price i.portfolio.spendable_usdt
          rt
