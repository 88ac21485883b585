-- ===== src/Domain/Text.antt =====
-- The string methods that the validations call, on ASCII text: other code points are left alone by
-- `upper`, are not stripped and are not alphanumeric.
mod Defs
mod Laws
unfoldable pub use Defs.*
pub use Laws.*
