-- ===== src/Expr/Convert.antt =====
-- From the syntax tree to bytecode: `convert_ast_to_bytecode` of queryexe/src/query/planner.rs.
mod Correct
mod Compile
mod Tests
use crustydb_labs_cs378_spri.Prelude.{
  CrustyError, String, List, Outcome, ok, err, ◌>>=◌, crusty_error,
}
use crustydb_labs_cs378_spri.Expr.Ast.{
  AstExpr, literal, ident, alias, math, boolean, agg, col_idx, bind_expr,
}
use crustydb_labs_cs378_spri.Expr.Bytecode.{
  ByteCodeExpr, empty, add_code, add_literal, code_of, push_lit, push_field, math_op, boolean_op,
}

abbrev pub unexpected : CrustyError
unexpected =
    crusty_error
      "Ident, Alias, and Agg should have been handled in conversion to logical plan or bound expression"

unfoldable pub convert_inner : AstExpr → ByteCodeExpr → Outcome ByteCodeExpr
convert_inner (ident n) b = err unexpected
convert_inner (alias n e) b = err unexpected
convert_inner (agg op e) b = err unexpected
convert_inner (literal l) b =
    let (i, b') = add_literal b l in ok (add_code (add_code b' (code_of push_lit)) i)
convert_inner (math op l r) b = do
  b₁ ← convert_inner l b
  b₂ ← convert_inner r b₁
  ok (add_code b₂ (code_of (math_op op)))
convert_inner (boolean op l r) b = do
  b₁ ← convert_inner l b
  b₂ ← convert_inner r b₁
  ok (add_code b₂ (code_of (boolean_op op)))
convert_inner (col_idx i) b = ok (add_code (add_code b (code_of push_field)) i)

unfoldable pub convert_ast_to_bytecode : AstExpr → List String → Outcome ByteCodeExpr
convert_ast_to_bytecode e schema = do bound ← bind_expr e schema; convert_inner bound empty
