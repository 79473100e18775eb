-- ===== src/Float.antt =====
-- Go's float64, which the language provides: an interface for the operations that the code uses,
-- the laws of its order that the proofs rely on, and decimals that meet them.
mod Defs
mod Fixed
pub use Defs.{Float, IsNumber, IsOrdered, NotNegative, IsRounded, IsRatio}
pub use Fixed.{Decimal, decimal_float, scale, Decimal-IsOrdered, Decimal-IsRounded, Decimal-IsRatio}
unfoldable pub use Fixed.{operations}
