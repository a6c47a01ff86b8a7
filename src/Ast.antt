-- ===== src/Ast.antt =====
-- src/ast/mod.rs: the syntax tree. `D` stands for the BigDecimal of the bigdecimal crate. A node that
-- holds a list of nodes of its own kind has a list type of its own, which stands for the vector.
pub mod Types
pub mod Tree
pub mod Spans
