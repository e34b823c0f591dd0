-- ===== src/Engine.antt =====
-- src/engine: the expression language of the templates.
pub mod Operators
pub mod Tokens
pub mod Node
pub mod Eval
pub mod Parser
pub mod Runtime
pub mod Chains
pub mod Replace
pub mod Precedence
pub mod Caching
pub mod Lexing
pub mod Paths
pub mod Tests
