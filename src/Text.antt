-- ===== src/Text.antt =====
-- JavaScript strings as lists of UTF-16 code units, with the operations of `String.prototype`
-- that the code calls, and their laws.
mod Defs
mod Laws
unfoldable pub use Defs.*
pub use Laws.*
