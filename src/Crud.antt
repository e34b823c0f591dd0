-- ===== src/Crud.antt =====
-- src/crud.rs: the statements for a table's rows.
pub mod Fields
pub mod Statements
pub mod Rows
pub mod Batches
pub mod Session
pub mod Updates
mod Tests
mod SessionTests
