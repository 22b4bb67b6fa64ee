-- ===== src/Parser.antt =====
-- The parser's tokens and its lexer.
pub mod Text
pub mod Token
pub mod Keywords
pub mod Names
pub mod Words
pub mod Lexer
mod Tests
