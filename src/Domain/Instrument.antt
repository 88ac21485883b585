-- ===== src/Domain/Instrument.antt =====
-- src/broker_ai/domain/instrument.py: the identity of a tradable instrument, normalized and
-- validated when it is made.
mod Laws
mod Defs
unfoldable pub use Defs.*
pub use Laws.*
