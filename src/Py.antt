-- ===== src/Py.antt =====
-- src/ast/lang/py.rs: templates whose blocks are marked by their indentation.
pub mod Lines
pub mod Node
pub mod Parser
pub mod Blocks
pub mod Termination
pub mod Template
pub mod Words
pub mod Tags
pub mod Headers
pub mod Shapes
pub mod Nesting
pub mod RoundTrip
pub mod Safety
pub mod Cache
mod Tests
