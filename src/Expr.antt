-- ===== src/Expr.antt =====
-- Scalar expressions: fields, their syntax tree, and the bytecode that operators run.
pub mod Field
pub mod Ast
pub mod Bytecode
mod Prefix
pub mod Meaning
pub mod Convert
