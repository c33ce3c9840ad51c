-- ===== src/Float/Defs.antt =====
-- The operations on `float64` values that the sources use. `lit n d` is the literal n / 10 ^ d,
-- `lt a b` is a < b, and a > b is `lt b a`. `of_int` and `to_int` are the conversions from and to
-- `int64`, and `round` to `max_float` are those of Go's package math.
use trandingnok.Base.{ℕ, ℤ, Bool, true, ◌≡◌}

pub record Float64 (R : Type 0) : Type 0 where
  pub lt : R → R → Bool
  pub le : R → R → Bool
  pub eq : R → R → Bool
  pub add : R → R → R
  pub sub : R → R → R
  pub mul : R → R → R
  pub div : R → R → R
  pub neg : R → R
  pub lit : ℕ → ℕ → R
  pub of_int : ℤ → R
  pub to_int : R → ℤ
  pub round : R → R
  pub log : R → R
  pub exp : R → R
  pub sqrt : R → R
  pub max : R → R → R
  pub min : R → R → R
  pub max_float : R

infixl 65 ◌⊕◌ ◌⊖◌
infixl 70 ◌⊗◌ ◌⊘◌
infix 50 ◌≺◌ ◌≼◌
module _ {R : Type 0} ⦃f : Float64 R⦄ where
  abbrev pub ◌⊕◌ : R → R → R
  ◌⊕◌ = f.add

  abbrev pub ◌⊖◌ : R → R → R
  ◌⊖◌ = f.sub

  abbrev pub ◌⊗◌ : R → R → R
  ◌⊗◌ = f.mul

  abbrev pub ◌⊘◌ : R → R → R
  ◌⊘◌ = f.div

  abbrev pub ◌≺◌ : R → R → Bool
  ◌≺◌ = f.lt

  abbrev pub ◌≼◌ : R → R → Bool
  ◌≼◌ = f.le

  -- A value that is not NaN.
  abbrev pub IsNumber : R → Type 0
  IsNumber x = f.le x x ≡ true

  abbrev pub lit : ℕ → ℕ → R
  lit = f.lit

  abbrev pub nought : R
  nought = f.lit 0 0
