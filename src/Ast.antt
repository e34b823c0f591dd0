-- ===== src/Ast.antt =====
-- src/ast/node: the nodes of a template, their evaluation and their printed form.
pub mod Defs
pub mod StringNode
pub mod Nodes
pub mod Eval
pub mod Print
pub mod Arguments
pub mod TreeArguments
pub mod Loops
pub mod Tests
