-- ===== src/Decimal.antt =====
-- Python's `decimal.Decimal` under the default context, as the program uses it: 28 significant
-- digits, ROUND_HALF_EVEN. A finite value is an integer number of units of 10^-60.
mod Defs
pub mod Rounding
pub mod Signs
pub mod Exact
unfoldable pub use Defs.*
