-- ===== src/Page.antt =====
-- src/plugin/page.rs: page requests, pages and the page plugin.
mod Defs
pub mod Request
pub mod Result
pub mod Rows
pub mod Statements
mod Tests
unfoldable pub use Defs.*
