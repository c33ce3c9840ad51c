-- ===== src/Saas/Ledger/Audited.antt =====
-- internal/saas/instance/manager.go: every release that is booked is bounded and audited.
use trandingnok.Base.{
  ℕ, ◌≡◌, refl, ◌⊎◌, inl, inr, Bool, true, false, ◌||◌, none, some, List, [], ◌∷◌, ◌++◌, arith,
  ◌==◌, Bool-cases, Option-cases, All,
}
use trandingnok.Float.{IsNumber, IsOrdered, Float64, ◌⊕◌, ◌⊖◌, ◌≺◌, ◌≼◌, nought}
use trandingnok.Quant.Data.{TradeIntent}
use trandingnok.Saas.Store.{PortfolioRow, Db, find_first, update_where}
use trandingnok.Saas.Ledger.{Faults, cap, handle_release}

module _ {R : Type 0} ⦃f : Float64 R⦄ where
  -- What one release does to the state: nothing, or the booking of a quantity on the instance's row
  -- with one audit entry of that quantity.
  pub record Released (instance_id : ℕ) (intent : TradeIntent R) (d e : Db R) : Type 0 where
    pub row : PortfolioRow R
    pub found : find_first (λ p. p.instance_id == instance_id) d.portfolios ≡ some row
    pub positive : (intent.qty_asset ≼ nought) ≡ false
    pub q : R
    pub source : (q ≡ intent.qty_asset) ⊎ (q ≡ row.dead_btc)
    pub asked : (q ≼ intent.qty_asset) ≡ true
    pub capped : (q ≼ row.dead_btc) ≡ true
    pub portfolios :
        e.portfolios
        ≡ update_where
            (λ p. p.instance_id == instance_id)
            (λ p. record row { dead_btc = row.dead_btc ⊖ q; float_btc = row.float_btc ⊕ q })
            d.portfolios
    pub audits :
        e.audits
        ≡ d.audits
          ++ (record { instance_id = instance_id; event_type = "dead_release"; qty = q } ∷ [])
    pub executions : e.executions ≡ d.executions
    pub trades : e.trades ≡ d.trades

  found-IsNumber :
      (q : PortfolioRow R → Bool) (ps : List (PortfolioRow R)) (row : PortfolioRow R)
      → All (λ p. IsNumber p.dead_btc) ps
      → find_first q ps ≡ some row
      → IsNumber row.dead_btc
  found-IsNumber q [] row h e = absurd (ground arith)
  found-IsNumber q (p ∷ ps) row (n, ns) e = elim (Bool-cases (q p)) [
    | inl hit ↦ let same : p ≡ row = ground arith in rw (← same) n
    | inr miss ↦ found-IsNumber q ps row ns (rw miss at e)
  ]

  cap-le :
      (ord : IsOrdered R) (qty dead : R)
      → IsNumber qty
      → IsNumber dead
      → (cap qty dead ≼ dead) ≡ true
  cap-le ord qty dead n m = ground (arith, ord.lt-eq-not-le dead qty m n)

  cap-asked :
      (ord : IsOrdered R) (qty dead : R)
      → IsNumber qty
      → IsNumber dead
      → (cap qty dead ≼ qty) ≡ true
  cap-asked ord qty dead n m =
      ground
        (arith, ord.lt-eq-not-le dead qty m n, ord.le_total dead qty m n, ord.le_of_lt dead qty)

  cap-source : (qty dead : R) → (cap qty dead ≡ qty) ⊎ (cap qty dead ≡ dead)
  cap-source qty dead = elim (Bool-cases (dead ≺ qty)) [
    | inl less ↦ rw less (inr refl)
    | inr more ↦ rw more (inl refl)
  ]

  -- Why a release is not booked.
  abbrev pub Skipped : Faults → ℕ → TradeIntent R → Db R → Type 0
  Skipped fails id t db =
      ((t.qty_asset ≼ nought) ≡ true)
      ⊎ ((fails.load || fails.save || fails.audit) ≡ true)
      ⊎ (find_first (λ p. p.instance_id == id) db.portfolios ≡ none)

  -- For quantities that are numbers, a release of a positive quantity takes the asked quantity or
  -- the whole dead stack, whichever is not above the other, from the dead stack of its instance's
  -- row and adds it to the float stack of that row, with one audit entry of that quantity and
  -- without touching orders, trades or the rest of the row; or it changes nothing at all, and then
  -- the asked quantity is not positive, a call failed, or the instance has no row.
  pub handle_release-Released :
      (ord : IsOrdered R) (fails : Faults) (id : ℕ) (t : TradeIntent R) (db : Db R)
      → IsNumber t.qty_asset
      → All (λ p. IsNumber p.dead_btc) db.portfolios
      → let e = handle_release fails id t db in
        (Skipped fails id t db × (e ≡ db)) ⊎ Released id t db e
  unfolding handle_release
  handle_release-Released ord fails id t db n ns =
      let mine = λ (p : PortfolioRow R). p.instance_id == id in
      elim (Bool-cases (t.qty_asset ≼ nought)) [
        | inl small ↦ inl (inl small, rw small refl)
        | inr large ↦ elim (Bool-cases (fails.load || fails.save || fails.audit)) [
          | inl bad ↦ inl (inr (inl bad), rw (large, bad) refl)
          | inr good ↦ elim (Option-cases (find_first mine db.portfolios)) [
            | inl gone ↦ inl (inr (inr gone), rw (large, good, gone, handle_release) refl)
            | inr (row, found) ↦
                let m = found-IsNumber mine db.portfolios row ns found in
                inr (
                  rw (large, good, found, handle_release)
                    (record {
                      row = row;
                      found = found;
                      positive = large;
                      portfolios = refl;
                      audits = refl;
                      executions = refl;
                      trades = refl;
                      q = cap t.qty_asset row.dead_btc;
                      source = cap-source t.qty_asset row.dead_btc;
                      asked = cap-asked ord t.qty_asset row.dead_btc n m;
                      capped = cap-le ord t.qty_asset row.dead_btc n m;
                    }))
          ]
        ]
      ]
