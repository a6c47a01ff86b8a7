-- ===== src/Parser.antt =====
-- src/parser/mod.rs: the parser. Each file holds the functions of one part of the grammar. A
-- function that the source calls further down is a field of `Calls`, with less fuel: the parser is
-- tied together in Parser/Run.
pub mod State
pub mod Cursor
pub mod Calls
pub mod Annotations
pub mod Strings
pub mod Patterns
pub mod Operators
pub mod Blocks
pub mod Control
pub mod Braces
pub mod Primary
pub mod Statements
pub mod Run
pub mod Goes
pub mod CursorGoes
pub mod LoopsGoes
pub mod Served
pub mod AnnotationsGoes
pub mod ControlGoes
pub mod PatternsGoes
pub mod Recovery
pub mod BracesGoes
pub mod PrimaryGoes
pub mod OperatorsGoes
pub mod StatementsGoes
pub mod Total
pub mod Completes
pub mod Imports
pub mod Examples
