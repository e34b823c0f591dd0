-- ===== src/Text.antt =====
-- Rust strings as lists of code points, with the operations of `str` and `String` that the
-- sources use. Positions count characters.
mod Basic
mod Search
mod Trim
pub mod Count
pub mod Lines
pub mod Joined
pub mod Blanks
pub mod Trimmed
pub mod Signed
unfoldable pub use Basic.*
unfoldable pub use Search.*
unfoldable pub use Trim.*
