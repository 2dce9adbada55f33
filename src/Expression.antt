-- ===== src/Expression.antt =====
-- engine/expression
pub mod Tests
pub mod Token
pub mod Lexer
pub mod Syntax
pub mod Parser
pub mod Values
pub mod Filters
pub mod Outcome
pub mod Operators
pub mod Eval
pub mod Template
