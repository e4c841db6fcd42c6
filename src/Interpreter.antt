-- ===== src/Interpreter.antt =====
-- internal/configuration/interpreter: the expressions of device profiles.
pub mod Token
pub mod Lexer
pub mod Float
pub mod Naturals
pub mod Expr
pub mod Parser
pub mod Eval
mod Tests
