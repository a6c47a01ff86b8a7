-- ===== src/Lexer.antt =====
-- The lexer, src/lexer.
pub mod Token
pub mod Keywords
pub mod State
pub mod Scan
pub mod Number
pub mod Escapes
pub mod Strings
pub mod Punct
pub mod Tokenize
pub mod Examples
pub mod Moves
pub mod ScanMoves
pub mod StringMoves
pub mod NextToken
pub mod Total
pub mod Skipped
pub mod Located
pub mod Cursor
