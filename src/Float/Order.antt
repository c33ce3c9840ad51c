-- ===== src/Float/Order.antt =====
-- Consequences of the laws of the order.
use trandingnok.Base.{◌≡◌, true, false, arith}
use trandingnok.Float.Defs.{Float64, ◌≺◌, ◌≼◌}
use trandingnok.Float.Laws.{IsOrdered}

module _ {R : Type 0} ⦃f : Float64 R⦄ (ord : IsOrdered R) where
  open ord use {refl_of_le, le_trans, le_total, le_of_lt, lt-eq-not-le}

  pub lt_of_lt_le : (x y z : R) → (x ≺ y) ≡ true → (y ≼ z) ≡ true → (x ≺ z) ≡ true
  lt_of_lt_le x y z h k =
      let (nx, ny) = refl_of_le x y (le_of_lt x y h) in
      let nz = (refl_of_le y z k).1 in
      ground (arith, lt-eq-not-le x y nx ny, lt-eq-not-le x z nx nz, le_trans y z x k)

  -- Among numbers the failure of `<=` is `<` the other way round.
  pub le_of_not_le : (x y : R) → (x ≼ x) ≡ true → (y ≼ y) ≡ true → (x ≼ y) ≡ false → (y ≼ x) ≡ true
  le_of_not_le x y nx ny h = ground (arith, le_total x y nx ny)

  pub le_of_not_lt : (x y : R) → (x ≼ x) ≡ true → (y ≼ y) ≡ true → (x ≺ y) ≡ false → (y ≼ x) ≡ true
  le_of_not_lt x y nx ny h = ground (arith, lt-eq-not-le x y nx ny)
