-- ===== src/Expr/Ast.antt =====
-- The syntax tree of an expression and its binding to a schema: common/src/ast_expr.rs, with
-- `get_field_index` of common/src/lib.rs and `is_computed_from` of queryexe/src/query/planner.rs.
-- A schema is the list of the names of its attributes, which is all that is read of it here.
use crustydb_labs_cs378_spri.Prelude.{
  ℕ, suc, Bool, true, false, ◌||◌, List, [], ◌∷◌, Option, none, some, String, ◌==◌, string_eq,
  if◌then◌else◌, Outcome, ok, panic, ◌>>=◌, unwrap,
}
use crustydb_labs_cs378_spri.Expr.Field.{Field, MathOp, BooleanOp, AggOp}

pub data AstExpr : Type 0 where
  literal : Field → AstExpr
  ident : String → AstExpr
  alias : String → AstExpr → AstExpr
  math : MathOp → AstExpr → AstExpr → AstExpr
  boolean : BooleanOp → AstExpr → AstExpr → AstExpr
  agg : AggOp → AstExpr → AstExpr
  col_idx : ℕ → AstExpr

unfoldable pub has_agg : AstExpr → Bool
has_agg (literal f) = false
has_agg (ident n) = false
has_agg (alias n e) = has_agg e
has_agg (math op l r) = has_agg l || has_agg r
has_agg (boolean op l r) = has_agg l || has_agg r
has_agg (agg op e) = true
has_agg (col_idx i) = false

-- The loop of `get_field_index`, at attribute `i`.
unfoldable pub field_index_from : ℕ → List String → String → Option ℕ
field_index_from i [] name = none
field_index_from i (attr ∷ attrs) name =
    if attr == name then some i else field_index_from (suc i) attrs name

unfoldable pub get_field_index : List String → String → Option ℕ
get_field_index attrs name = field_index_from 0 attrs name

-- `TableSchema::contains`
unfoldable pub schema_contains : List String → String → Bool
schema_contains [] name = false
schema_contains (attr ∷ attrs) name = if attr == name then true else schema_contains attrs name

-- A name that the schema lacks, and an aggregate, are panics.
unfoldable pub bind_expr : AstExpr → List String → Outcome AstExpr
bind_expr (agg op e) schema = panic
bind_expr (literal f) schema = ok (literal f)
bind_expr (ident name) schema = do i ← unwrap (get_field_index schema name); ok (col_idx i)
bind_expr (alias name e) schema = bind_expr e schema
bind_expr (math op l r) schema = do
  left ← bind_expr l schema
  right ← bind_expr r schema
  ok (math op left right)
bind_expr (boolean op l r) schema = do
  left ← bind_expr l schema
  right ← bind_expr r schema
  ok (boolean op left right)
bind_expr (col_idx i) schema = ok (col_idx i)

-- `&&` calls its right side only if the left one is true.
unfoldable pub is_computed_from : AstExpr → List String → Outcome Bool
is_computed_from (ident name) schema = ok (schema_contains schema name)
is_computed_from (alias name e) schema = is_computed_from e schema
is_computed_from (literal f) schema = ok true
is_computed_from (math op l r) schema = do
  left ← is_computed_from l schema
  elim left [ true ↦ is_computed_from r schema | false ↦ ok false ]
is_computed_from (boolean op l r) schema = do
  left ← is_computed_from l schema
  elim left [ true ↦ is_computed_from r schema | false ↦ ok false ]
is_computed_from (agg op e) schema = is_computed_from e schema
is_computed_from (col_idx i) schema = panic
