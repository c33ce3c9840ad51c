-- ===== src/Float/Laws.antt =====
-- What IEEE 754 says of comparisons and of correctly rounded sums and products. NaN is the value
-- that is not `<=` itself; `finite` excludes it and the infinities.
use trandingnok.Base.{ℕ, ◌≤◌, Bool, true, not, ◌≡◌, ◌⊎◌}
use trandingnok.Float.Defs.{Float64, ◌⊕◌, ◌⊖◌, ◌⊗◌, ◌⊘◌, ◌≺◌, ◌≼◌, lit, nought}

-- The order of the values: total away from NaN, and strict where `<` is asked.
pub record IsOrdered (R : Type 0) ⦃f : Float64 R⦄ : Type 0 where
  pub refl_of_le : (x y : R) → (x ≼ y) ≡ true → ((x ≼ x) ≡ true) × ((y ≼ y) ≡ true)
  pub le_trans : (x y z : R) → (x ≼ y) ≡ true → (y ≼ z) ≡ true → (x ≼ z) ≡ true
  pub le_total : (x y : R) → (x ≼ x) ≡ true → (y ≼ y) ≡ true → ((x ≼ y) ≡ true) ⊎ ((y ≼ x) ≡ true)
  pub le_of_lt : (x y : R) → (x ≺ y) ≡ true → (x ≼ y) ≡ true
  pub lt-eq-not-le : (x y : R) → (x ≼ x) ≡ true → (y ≼ y) ≡ true → (x ≺ y) ≡ not (y ≼ x)
  pub nought_refl : ◌≼◌ {R = R} nought nought ≡ true

-- Signs and bounds of the operations on finite values: rounding is monotone and keeps 0 and 1.
pub record IsRounded (R : Type 0) ⦃f : Float64 R⦄ : Type 0 where
  pub finite : R → Bool
  pub le_refl_of_finite : (x : R) → finite x ≡ true → (x ≼ x) ≡ true
  pub finite_of_between :
      (x y z : R)
      → finite x ≡ true
      → finite z ≡ true
      → (x ≼ y) ≡ true
      → (y ≼ z) ≡ true
      → finite y ≡ true
  pub lit_finite : (n d : ℕ) → n ≤ 1000000 → finite (lit n d) ≡ true
  pub lit_nonneg : (n d : ℕ) → (nought {R = R} ≼ lit n d) ≡ true
  pub lit_le : (n m d : ℕ) → n ≤ m → (lit {R = R} n d ≼ lit m d) ≡ true
  pub neg_finite : (x : R) → finite x ≡ true → finite (f.neg x) ≡ true
  pub neg_le : (x y : R) → (x ≼ y) ≡ true → (f.neg y ≼ f.neg x) ≡ true
  pub add_nonneg : (x y : R) → (nought ≼ x) ≡ true → (nought ≼ y) ≡ true → (nought ≼ (x ⊕ y)) ≡ true
  pub le-add :
      (x y : R) → finite x ≡ true → (nought ≼ x) ≡ true → (nought ≼ y) ≡ true → (x ≼ (x ⊕ y)) ≡ true
  pub sub_nonneg : (x y : R) → finite y ≡ true → (y ≼ x) ≡ true → (nought ≼ (x ⊖ y)) ≡ true
  pub sub-le : (x y : R) → finite x ≡ true → (nought ≼ y) ≡ true → ((x ⊖ y) ≼ x) ≡ true
  pub sub_mono : (x y z : R) → finite z ≡ true → (x ≼ y) ≡ true → ((x ⊖ z) ≼ (y ⊖ z)) ≡ true
  pub mul_nonneg :
      (x y : R)
      → finite x ≡ true
      → finite y ≡ true
      → (nought ≼ x) ≡ true
      → (nought ≼ y) ≡ true
      → (nought ≼ (x ⊗ y)) ≡ true
  pub mul_mono :
      (x y z : R)
      → finite z ≡ true
      → finite x ≡ true
      → finite y ≡ true
      → (nought ≼ x) ≡ true
      → (x ≼ y) ≡ true
      → (nought ≼ z) ≡ true
      → ((x ⊗ z) ≼ (y ⊗ z)) ≡ true
  pub mul-le_left :
      (x y : R)
      → finite x ≡ true
      → (nought ≼ x) ≡ true
      → (nought ≼ y) ≡ true
      → (y ≼ lit 1 0) ≡ true
      → ((x ⊗ y) ≼ x) ≡ true
  pub div_nonneg :
      (x y : R)
      → finite y ≡ true
      → (nought ≼ x) ≡ true
      → (nought ≺ y) ≡ true
      → (nought ≼ (x ⊘ y)) ≡ true
  pub div-le_one :
      (x y : R)
      → finite x ≡ true
      → (nought ≼ x) ≡ true
      → (x ≼ y) ≡ true
      → (nought ≺ y) ≡ true
      → ((x ⊘ y) ≼ lit 1 0) ≡ true
  pub exp_nonneg : (x : R) → (x ≼ x) ≡ true → (nought ≼ f.exp x) ≡ true
  pub one_pos : (nought {R = R} ≺ lit 10 1) ≡ true
  -- One half, one and two are values of the type.
  pub half_exact : (lit {R = R} 10 1 ⊖ lit 5 1) ⊗ lit 20 1 ≡ lit 1 0
  pub one_exact : lit {R = R} 10 1 ≡ lit 1 0
