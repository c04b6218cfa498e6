-- ===== src/Expr/Meaning.antt =====
-- What an expression means, read off its tree: the description that the bytecode of
-- common/src/bytecode_expr.rs is compared with.
use crustydb_labs_cs378_spri.Prelude.{
  ℕ, List, String, Outcome, ok, panic, ◌>>=◌, unwrap, unwrap_result, get_elem?,
}
use crustydb_labs_cs378_spri.Prelude.Int.{ℤ}
use crustydb_labs_cs378_spri.Expr.Field.{Field, math_field}
use crustydb_labs_cs378_spri.Expr.Ast.{
  AstExpr, literal, ident, alias, math, boolean, agg, col_idx, get_field_index,
}
use crustydb_labs_cs378_spri.Expr.Bytecode.{boolean_field}

-- The value of column `i` of a record.
abbrev pub column : List Field → ℕ → Outcome Field
column record' i = unwrap (get_elem? record' i)

module _ (round_div : ℤ → ℤ → ℤ) (schema : List String) (record' : List Field) where
  -- A name stands for its column of the schema, an alias for its expression, and an operator that
  -- fails is a panic. An aggregate has no value on one record.
  unfoldable pub meaning : AstExpr → Outcome Field
  meaning (literal f) = ok f
  meaning (ident name) = do i ← unwrap (get_field_index schema name); column record' i
  meaning (alias name e) = meaning e
  meaning (math op l r) = do
    a ← meaning l
    b ← meaning r
    unwrap_result (math_field round_div op a b)
  meaning (boolean op l r) = do a ← meaning l; b ← meaning r; unwrap_result (boolean_field op a b)
  meaning (agg op e) = panic
  meaning (col_idx i) = column record' i
