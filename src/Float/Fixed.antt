-- ===== src/Float/Fixed.antt =====
-- A concrete type of values: decimals with four places, with `none` for NaN, on which the model
-- runs and where the laws of `Float.Laws` hold. `log`, `exp` and `sqrt` are coarse approximations.
use trandingnok.Base.{
  ℕ, suc, ◌+◌, ◌*◌, ◌/◌, ◌^◌, ◌≤◌, ◌≡◌, refl, Bool, true, false, Option, none, some, arith, ℤ, pos,
  negsuc, sub_ℕ, ◌+ℤ◌, ◌-ℤ◌, ◌*ℤ◌, ltb_ℤ, leb_ℤ, eqb_ℤ, quot_ℤ, if◌then◌else◌,
}
use native.Mathlib.Nat.{mul-le-mul, le_refl}
use trandingnok.Float.Defs.{Float64, ◌⊕◌, ◌⊖◌, ◌≼◌, nought, ◌⊗◌, ◌⊘◌, ◌≺◌, lit}
use trandingnok.Float.Laws.{IsOrdered, IsRounded}

abbrev pub Fixed : Type 0
Fixed = Option ℤ

abbrev pub test : (ℤ → ℤ → Bool) → Fixed → Fixed → Bool
test t (some a) (some b) = t a b
test t _ _ = false

abbrev pub lift : (ℤ → ℤ → ℤ) → Fixed → Fixed → Fixed
lift op (some a) (some b) = some (op a b)
lift op _ _ = none

abbrev pub each : (ℤ → ℤ) → Fixed → Fixed
each op (some a) = some (op a)
each op none = none

unfoldable pub mul_fixed : ℤ → ℤ → ℤ
unfolding ◌*ℤ◌ quot_ℤ
mul_fixed a b = quot_ℤ (a *ℤ b) 10000

-- A quotient by zero is NaN.
unfoldable pub div_fixed : Fixed → Fixed → Fixed
unfolding ◌*ℤ◌ quot_ℤ
div_fixed (some a) (some (pos (suc b))) = some (quot_ℤ (a *ℤ pos 10000) (suc b))
div_fixed (some a) (some (negsuc b)) = some (quot_ℤ (a *ℤ negsuc 9999) (suc b))
div_fixed _ _ = none

-- Rounding to an integer, halves away from zero.
unfoldable pub round_fixed : ℤ → ℤ
round_fixed (pos n) = pos ((n + 5000) / 10000 * 10000)
round_fixed (negsuc n) = sub_ℕ 0 ((suc n + 5000) / 10000 * 10000)

unfoldable pub whole_fixed : Fixed → ℤ
unfolding quot_ℤ
whole_fixed (some a) = quot_ℤ a 10000
whole_fixed none = pos 0

instance abbrev pub fixed_float : Float64 Fixed
fixed_float = record {
  lt = test ltb_ℤ;
  le = test leb_ℤ;
  eq = test eqb_ℤ;
  add = lift ◌+ℤ◌;
  sub = lift ◌-ℤ◌;
  mul = lift mul_fixed;
  div = div_fixed;
  neg = each (λ a. pos 0 -ℤ a);
  lit = λ n d. some (pos (n * 10000 / 10 ^ d));
  of_int = λ n. some (n *ℤ pos 10000);
  to_int = whole_fixed;
  round = each round_fixed;
  log = each (λ a. a -ℤ pos 10000);
  exp = each (λ a. if ltb_ℤ a (negsuc 9999) then pos 0 else a +ℤ pos 10000);
  sqrt = each (λ a. a);
  max = lift (λ a b. if ltb_ℤ a b then b else a);
  min = lift (λ a b. if ltb_ℤ b a then b else a);
  max_float = some (pos (10 ^ 30));
}

pub Fixed-IsOrdered : IsOrdered Fixed
Fixed-IsOrdered = record {
  refl_of_le = ground arith;
  le_trans = ground arith;
  le_total = ground arith;
  le_of_lt = ground arith;
  lt-eq-not-le = ground arith;
  nought_refl = refl;
}

abbrev pub finite_fixed : Fixed → Bool
finite_fixed (some a) = true
finite_fixed none = false

abbrev IsFinite : Fixed → Type 0
IsFinite x = finite_fixed x ≡ true

abbrev Below : Fixed → Fixed → Type 0
Below x y = (x ≼ y) ≡ true

between : (x y z : Fixed) → IsFinite x → IsFinite z → Below x y → Below y z → IsFinite y
between x y z = ground arith

div_mono : (m n k : ℕ) → m ≤ n → m / k ≤ n / k
div_mono m n k h = grind arith

literals : (n m d : ℕ) → n ≤ m → Below (lit n d) (lit m d)
literals n m d h = ground (arith, div_mono (n * 10000) (m * 10000) (10 ^ d) (omega arith))

module _ (x y : Fixed) where
  neg_fixed : Below x y → Below (fixed_float.neg y) (fixed_float.neg x)
  unfolding ◌-ℤ◌
  neg_fixed h = ground arith

  add_fixed : Below nought x → Below nought y → Below nought (x ⊕ y)
  unfolding ◌+ℤ◌
  add_fixed h k = ground arith

  le-add_fixed : IsFinite x → Below nought x → Below nought y → Below x (x ⊕ y)
  unfolding ◌+ℤ◌
  le-add_fixed f h k = ground arith

  sub_fixed : IsFinite y → Below y x → Below nought (x ⊖ y)
  unfolding ◌-ℤ◌
  sub_fixed f h = ground arith

  sub_fixed-le : IsFinite x → Below nought y → Below (x ⊖ y) x
  unfolding ◌-ℤ◌
  sub_fixed-le f h = ground arith

sub_fixed_mono : (x y z : Fixed) → IsFinite z → Below x y → Below (x ⊖ z) (y ⊖ z)
unfolding ◌-ℤ◌
sub_fixed_mono x y z f h = ground arith

mul_pos : (m n : ℕ) → mul_fixed (pos m) (pos n) ≡ pos (m * n / 10000)
unfolding mul_fixed ◌*ℤ◌
mul_pos m n = ground arith

abbrev IsPos : Fixed → Type 0
IsPos x = (m : ℕ) × (x ≡ some (pos m))

IsPos-of : (x : Fixed) → Below nought x → IsPos x
IsPos-of (some (pos m)) h = (m, refl)
IsPos-of (some (negsuc m)) h = absurd (ground arith)
IsPos-of none h = absurd (ground arith)

mul_fixed_nonneg :
    (x y : Fixed) → IsFinite x → IsFinite y → Below nought x → Below nought y → Below nought (x ⊗ y)
mul_fixed_nonneg x y f g a b =
    let (m, e) = IsPos-of x a in
    let (n, d) = IsPos-of y b in rw (e, d) (ground (arith, mul_pos m n))

mul_fixed_mono :
    (x y z : Fixed)
    → IsFinite z
    → IsFinite x
    → Below nought x
    → Below x y
    → Below nought z
    → Below (x ⊗ z) (y ⊗ z)
mul_fixed_mono (some (pos m)) (some (pos n)) (some (pos k)) f g a b c =
    let le : m ≤ n = ground arith in
    let times : m * k ≤ n * k = mul-le-mul le (le_refl k) in
    ground (arith, mul_pos m k, mul_pos n k, div_mono (m * k) (n * k) 10000 times)
mul_fixed_mono _ _ _ f g a b c = ground arith

mul_fixed-le :
    (x y : Fixed)
    → IsFinite x
    → Below nought x
    → Below nought y
    → Below y (lit 1 0)
    → Below (x ⊗ y) x
mul_fixed-le (some (pos m)) (some (pos n)) f a b c =
    let small : n ≤ 10000 = ground arith in
    let le : m * n / 10000 ≤ m = grind arith in ground (arith, mul_pos m n, le)
mul_fixed-le _ _ f a b c = ground arith

div_pos : (m n : ℕ) → div_fixed (some (pos m)) (some (pos (suc n))) ≡ some (pos (m * 10000 / suc n))
unfolding div_fixed ◌*ℤ◌
div_pos m n = ground arith

div_fixed_nonneg :
    (x y : Fixed) → IsFinite y → Below nought x → (nought ≺ y) ≡ true → Below nought (x ⊘ y)
div_fixed_nonneg (some (pos m)) (some (pos (suc n))) f a b = ground (arith, div_pos m n)
div_fixed_nonneg _ _ f a b = ground arith

div_fixed-le_one :
    (x y : Fixed)
    → IsFinite x
    → Below nought x
    → Below x y
    → (nought ≺ y) ≡ true
    → Below (x ⊘ y) (lit 1 0)
div_fixed-le_one (some (pos m)) (some (pos (suc n))) f a b c =
    let small : m ≤ suc n = ground arith in
    let le : m * 10000 / suc n ≤ 10000 = grind arith in ground (arith, div_pos m n, le)
div_fixed-le_one _ _ f a b c = ground arith

exp_fixed : (x : Fixed) → Below x x → Below nought (fixed_float.exp x)
unfolding ◌+ℤ◌
exp_fixed x h = ground arith

pub Fixed-IsRounded : IsRounded Fixed
unfolding mul_fixed ◌*ℤ◌ ◌-ℤ◌
Fixed-IsRounded = record {
  finite = finite_fixed;
  le_refl_of_finite = ground arith;
  finite_of_between = between;
  lit_finite = λ n d h. refl;
  lit_nonneg = λ n d. ground arith;
  lit_le = literals;
  neg_finite = ground arith;
  neg_le = neg_fixed;
  add_nonneg = add_fixed;
  le-add = le-add_fixed;
  sub_nonneg = sub_fixed;
  sub-le = sub_fixed-le;
  sub_mono = sub_fixed_mono;
  mul_nonneg = mul_fixed_nonneg;
  mul_mono = λ x y z fz fx fy. mul_fixed_mono x y z fz fx;
  mul-le_left = mul_fixed-le;
  div_nonneg = div_fixed_nonneg;
  div-le_one = div_fixed-le_one;
  exp_nonneg = exp_fixed;
  one_pos = refl;
  half_exact = refl;
  one_exact = refl;
}

-- Every decimal but NaN is finite.
pub finite-some : (a : ℤ) → Fixed-IsRounded.finite (some a) ≡ true
unfolding Fixed-IsRounded
finite-some a = refl
