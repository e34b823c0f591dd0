-- ===== src/Wrapper.antt =====
-- src/wrapper.rs: the builder of conditions. A method takes the wrapper and returns the new one.
-- `serde_json::to_value` is the caller's: an argument is a `Value` already.
mod Defs
mod Calls
pub mod Marks
pub mod Balance
mod BalanceLists
pub mod Blanks
pub mod Invocations
pub mod Chain
pub mod Check
pub mod Links
pub mod RightLink
mod Tests
unfoldable pub use Defs.*
unfoldable pub use Calls.*
