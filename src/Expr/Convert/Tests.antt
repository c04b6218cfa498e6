-- ===== src/Expr/Convert/Tests.antt =====
-- An expression compiled and run: `price * 2 > 7` on a record with a price of 5.
use crustydb_labs_cs378_spri.Prelude.{◌≡◌, refl, String, List, [], ◌∷◌, true, false, ok}
use crustydb_labs_cs378_spri.Prelude.Int.{pos, ◌*ℤ◌}
use crustydb_labs_cs378_spri.Expr.Field.{
  Field, int, string, bool, mul, gt, quotient, int64, math_field, mul_field, lt_field,
}
use crustydb_labs_cs378_spri.Expr.Ast.{
  AstExpr, literal, ident, alias, math, boolean, has_agg, bind_expr, get_field_index,
  field_index_from, is_computed_from, schema_contains,
}
use crustydb_labs_cs378_spri.Expr.Bytecode.{
  ByteCodeExpr, code_of, run_codes, dispatch, boolean_field, eval,
}
use crustydb_labs_cs378_spri.Expr.Meaning.{meaning}
use crustydb_labs_cs378_spri.Expr.Convert.{convert_inner, convert_ast_to_bytecode}
use crustydb_labs_cs378_spri.Expr.Convert.Compile.{
  eval-convert_ast_to_bytecode, convert_ast_to_bytecode-ok,
}

abbrev expensive : AstExpr
expensive =
    alias "expensive"
      (boolean gt (math mul (ident "price") (literal (int (pos 2)))) (literal (int (pos 7))))

abbrev schema : List String
schema = "name" ∷ "price" ∷ []

abbrev row : List Field
row = string (97 ∷ []) ∷ int (pos 5) ∷ []

abbrev program : ByteCodeExpr
program = record {
  bytecodes = 1 ∷ 1 ∷ 0 ∷ 0 ∷ 4 ∷ 0 ∷ 1 ∷ 9 ∷ [];
  literals = int (pos 2) ∷ int (pos 7) ∷ [];
}

eval-row : eval quotient program row ≡ ok (bool true)
unfolding eval run_codes dispatch math_field mul_field int64 ◌*ℤ◌ boolean_field lt_field
eval-row = refl

converted : convert_ast_to_bytecode expensive schema ≡ ok program
unfolding convert_ast_to_bytecode bind_expr get_field_index field_index_from convert_inner code_of
converted = refl

plain : has_agg expensive ≡ false
unfolding has_agg
plain = refl

known : is_computed_from expensive schema ≡ ok true
unfolding is_computed_from schema_contains
known = refl

eval-convert_ast_to_bytecode_example :
    eval quotient program row ≡ meaning quotient schema row expensive
eval-convert_ast_to_bytecode_example =
    eval-convert_ast_to_bytecode quotient expensive schema program row converted

convert_ast_to_bytecode-ok_example :
    (b : ByteCodeExpr) × (convert_ast_to_bytecode expensive schema ≡ ok b)
convert_ast_to_bytecode-ok_example = convert_ast_to_bytecode-ok expensive schema plain known
