-- ===== src/Data.antt =====
-- src/broker_ai/data/historical.py: daily bars, and datasets in the order of time. A trading date is
-- its day number.
mod Defs
pub mod Order
pub mod Csv
unfoldable pub use Defs.*
