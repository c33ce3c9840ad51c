-- ===== src/Float.antt =====
-- Go's `float64`, as the program uses it: a type of values with IEEE 754 arithmetic. The operations
-- are the arguments of the model; `Float.Laws` states the facts of the standard that the theorems
-- rely on, and `Float.Fixed` has a concrete type of values at which everything can be run.
mod Defs
mod Laws
pub mod Fixed
pub mod Order
pub use Defs.*
pub use Laws.*
