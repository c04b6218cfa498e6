-- ===== src/Plan/Rows.antt =====
-- What a plan computes: the rows of its tree, over the rows of the tables. The order of the rows is that of
-- nested loops. A predicate keeps the rows on which it has the value true; a row on which it
-- has an error or a panic is dropped, where the program would stop the query. How an aggregate and a sort
-- work on rows is a parameter.
pub mod Keep
pub mod Lookup
use crustydb_labs_cs378_spri.Prelude.{
  ℕ, Bool, true, false, ◌&&◌, List, [], ◌∷◌, ◌++◌, Option, none, some, String, map, if◌then◌else◌,
  Outcome, ok, err, panic,
}
use crustydb_labs_cs378_spri.Prelude.Int.{ℤ}
use crustydb_labs_cs378_spri.Expr.Field.{Field, bool, null, eq}
use crustydb_labs_cs378_spri.Expr.Ast.{AstExpr, boolean}
use crustydb_labs_cs378_spri.Expr.Meaning.{meaning}
use crustydb_labs_cs378_spri.Plan.Rows.Keep.{keep, nested}
use crustydb_labs_cs378_spri.Plan.Logical.{AggregateNode}
use crustydb_labs_cs378_spri.Plan.Tree.{
  projecting, filtering, aggregating, sorting, joining, crossing, PlanTree, leaf, over, both,
}
use crustydb_labs_cs378_spri.Plan.Pushdown.Spec.{tree_columns, names_or_none}

abbrev pub Row : Type 0
Row = List Field

abbrev pub is_true : Outcome Field → Bool
is_true (ok (bool b)) = b
is_true _ = false

abbrev pub value_or_null : Outcome Field → Field
value_or_null (ok f) = f
value_or_null (err e) = null
value_or_null panic = null

module _ (round_div : ℤ → ℤ → ℤ) where
  abbrev pub holds : List String → AstExpr → Row → Bool
  holds schema p row = is_true (meaning round_div schema row p)

  abbrev pub all_hold : List String → List AstExpr → Row → Bool
  all_hold schema [] row = true
  all_hold schema (p ∷ ps) row = holds schema p row && all_hold schema ps row

  abbrev pub filter_holds : List String → Option AstExpr → Row → Bool
  filter_holds schema none row = true
  filter_holds schema (some p) row = holds schema p row

  abbrev pub eqs_hold : List String → List (AstExpr × AstExpr) → Row → Bool
  eqs_hold schema [] row = true
  eqs_hold schema ((a, b) ∷ eqs) row = holds schema (boolean eq a b) row && eqs_hold schema eqs row

  abbrev pub project_row : List String → List AstExpr → Row → Row
  project_row schema es row = map (λ e. value_or_null (meaning round_div schema row e)) es

  abbrev pub scan_rows : List String → Option (List AstExpr) → List Row → List Row
  scan_rows schema none rs = rs
  scan_rows schema (some es) rs = map (project_row schema es) rs

  module _ (catalog : ℕ → Option (List String)) (tables : ℕ → List Row)
      (aggregated : AggregateNode → List String → List Row → List Row)
      (sorted : List (AstExpr × Bool) → List String → List Row → List Row) where
    unfoldable pub rows : PlanTree → List Row
    rows (leaf s) =
        let schema = names_or_none (catalog s.container_id) in
        scan_rows schema s.projection (keep (filter_holds schema s.filter) (tables s.container_id))
    rows (over (projecting p) t) = map (project_row (tree_columns catalog t) p.identifiers) (rows t)
    rows (over (filtering f) t) = keep (holds (tree_columns catalog t) f.predicate) (rows t)
    rows (over (aggregating a) t) = aggregated a (tree_columns catalog t) (rows t)
    rows (over (sorting o) t) = sorted o.fields (tree_columns catalog t) (rows t)
    rows (both (joining j) l r) =
        let schema = tree_columns catalog l ++ tree_columns catalog r in
        nested (λ x y. eqs_hold schema j.eqs (x ++ y) && filter_holds schema j.filter (x ++ y))
          (rows l) (rows r)
    rows (both (crossing c) l r) =
        let schema = tree_columns catalog l ++ tree_columns catalog r in
        nested (λ x y. filter_holds schema c.filter (x ++ y)) (rows l) (rows r)
