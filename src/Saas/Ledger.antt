-- ===== src/Saas/Ledger.antt =====
-- internal/saas/instance/manager.go: handleRelease, the release as a booking of the server.
use trandingnok.Base.{ℕ, ◌+◌, Bool, ◌||◌, none, some, [], ◌∷◌, ◌++◌, ◌==◌, if◌then◌else◌}
use trandingnok.Float.{Float64, ◌⊕◌, ◌⊖◌, ◌≺◌, ◌≼◌, nought}
pub mod Audited
use trandingnok.Quant.Data.{TradeIntent}
use trandingnok.Saas.Store.{PortfolioRow, AuditLog, Db, find_first, update_where}

-- The database's answers to the calls of the transaction; a failing one rolls it back.
pub record Faults : Type 0 where
  pub load : Bool
  pub save : Bool
  pub audit : Bool

module _ {R : Type 0} ⦃f : Float64 R⦄ where
  -- The cap at the available dead stack.
  abbrev pub cap : R → R → R
  cap qty dead = if dead ≺ qty then dead else qty

  abbrev pub move : R → PortfolioRow R → PortfolioRow R
  move qty ps = record ps { dead_btc = ps.dead_btc ⊖ qty; float_btc = ps.float_btc ⊕ qty }

  abbrev pub release_audit : ℕ → R → AuditLog R
  release_audit instance_id qty = record {
    instance_id = instance_id;
    event_type = "dead_release";
    qty = qty;
  }

  -- `handleRelease`.
  unfoldable pub handle_release : Faults → ℕ → TradeIntent R → Db R → Db R
  handle_release fails instance_id intent db =
      let mine = λ (p : PortfolioRow R). p.instance_id == instance_id in
      let book = λ (ps : PortfolioRow R).
        let qty = cap intent.qty_asset ps.dead_btc in
        record db {
          portfolios = update_where mine (λ p. move qty ps) db.portfolios;
          audits = db.audits ++ (release_audit instance_id qty ∷ []);
        } in
      let row : Db R = elim (find_first mine db.portfolios) [ none ↦ db | some ps ↦ book ps ] in
      if intent.qty_asset ≼ nought
      then db
      else if fails.load || fails.save || fails.audit
      then db
      else row
