-- ===== src/Ga/Random.antt =====
-- Go's package math/rand, as the engine uses it: a generator that is passed on by every draw.
use trandingnok.Base.{ℕ, ◌<◌}

-- `float64 g` and `norm_float64 g` draw a value, `intn n g` draws an index below n.
pub record Rand (G R : Type 0) : Type 0 where
  pub float64 : G → R × G
  pub norm_float64 : G → R × G
  pub intn : ℕ → G → ℕ × G

-- `Intn(n)` is below a positive n.
pub record IsRand {G R : Type 0} (rnd : Rand G R) : Type 0 where
  pub intn-lt : (n : ℕ) (g : G) → 0 < n → (rnd.intn n g).0 < n
