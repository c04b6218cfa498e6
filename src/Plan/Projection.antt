-- ===== src/Plan/Projection.antt =====
-- The pushdown of projections: optimizer/src/pushdown_projection.rs. The set of columns is the list of what
-- was inserted; the order in which a `BTreeSet` gives its elements, each once, is the parameter `in_order`.
-- The recursion over the graph is on fuel; a call out of fuel would be a panic.
pub mod Spec
pub mod Kept
pub mod Refine
use crustydb_labs_cs378_spri.Prelude.{
  ℕ, zero, suc, List, [], ◌∷◌, ◌++◌, Option, none, some, String, map, Bool, if◌then◌else◌, Outcome,
  ok, panic, ◌>>=◌, unwrap,
}
use crustydb_labs_cs378_spri.Expr.Ast.{AstExpr, ident, schema_contains}
use crustydb_labs_cs378_spri.Plan.Logical.{
  LogicalOp, scan, project, filter, aggregate, join, cross_product, sort, read_deltas, write_deltas,
  update_op, ScanNode, LogicalPlan, edges, get_operator, add_node, add_edge, merge,
}
use crustydb_labs_cs378_spri.Plan.Logical
use crustydb_labs_cs378_spri.Plan.Pushdown.{extract_columns, extract_columns_vec, first_child}

unfoldable pub extract_eqs : List (AstExpr × AstExpr) → List String → Outcome (List String)
extract_eqs [] col_names = ok col_names
extract_eqs ((l, r) ∷ eqs) col_names = do
  with_l ← extract_columns l col_names
  with_r ← extract_columns r with_l
  extract_eqs eqs with_r

unfoldable pub extract_filter : Option AstExpr → List String → Outcome (List String)
extract_filter none col_names = ok col_names
extract_filter (some f) col_names = extract_columns f col_names

-- The columns of the table among those asked for.
abbrev pub new_projection : List String → List String → List AstExpr
new_projection schema [] = []
new_projection schema (col ∷ cols) =
    if schema_contains schema col
    then ident col ∷ new_projection schema cols
    else new_projection schema cols

abbrev pub left_and_right : List ℕ → Outcome (ℕ × ℕ)
left_and_right (l ∷ r ∷ rest) = ok (l, r)
left_and_right _ = panic

-- The operator over a plan that was rebuilt: the root is read after the node was added.
unfoldable pub put_top : LogicalOp → LogicalPlan → Outcome LogicalPlan
put_top op new_lp = do
  let added = add_node new_lp op
  old_root ← unwrap added.1.root
  add_edge added.1 added.0 old_root

module _ (in_order : List String → List String) (catalog : ℕ → Option (List String))
    (lp : LogicalPlan) where
  -- The branches for operators over one child and over two. The recursive call is `recurse`; the columns
  -- are a variable that each call adds to.
  unfoldable pub through_one :
      (ℕ → List String → Outcome (LogicalPlan × List String))
      → ℕ
      → LogicalOp
      → List String
      → Outcome (LogicalPlan × List String)
  through_one recurse start op col_names = do
    children ← edges lp start
    child ← first_child children
    below ← recurse child col_names
    new_lp ← put_top op below.0
    ok (new_lp, below.1)

  unfoldable pub through_two :
      (ℕ → List String → Outcome (LogicalPlan × List String))
      → ℕ
      → LogicalOp
      → List String
      → Outcome (LogicalPlan × List String)
  through_two recurse start op col_names = do
    children ← edges lp start
    sides ← left_and_right children
    new_lp_l ← recurse sides.0 col_names
    new_lp_r ← recurse sides.1 new_lp_l.1
    new_lp ← merge new_lp_l.0 op new_lp_r.0
    ok (new_lp, new_lp_r.1)

  unfoldable pub project_op :
      (ℕ → List String → Outcome (LogicalPlan × List String))
      → ℕ
      → LogicalOp
      → List String
      → Outcome (LogicalPlan × List String)
  project_op recurse start (project p) col_names = do
    cols ← extract_columns_vec p.identifiers col_names
    through_one recurse start (project p) cols
  project_op recurse start (filter f) col_names = do
    cols ← extract_columns f.predicate col_names
    through_one recurse start (filter f) cols
  project_op recurse start (aggregate a) col_names = do
    cols ← extract_columns_vec a.fields col_names
    cols' ← extract_columns_vec a.group_by cols
    through_one recurse start (aggregate a) cols'
  project_op recurse start (join j) col_names = do
    cols ← extract_eqs j.eqs col_names
    cols' ← extract_filter j.filter cols
    through_two recurse start (join j) cols'
  project_op recurse start (cross_product c) col_names =
      through_two recurse start (cross_product c) col_names
  project_op recurse start (sort s) col_names = do
    cols ← extract_columns_vec (map (λ f. f.0) s.fields) col_names
    through_one recurse start (sort s) cols
  project_op recurse start (scan s) col_names = do
    schema ← unwrap (catalog s.container_id)
    ok (
      (add_node Logical.new
          (scan (record s { projection = some (new_projection schema (in_order col_names)) }))).1,
      col_names,
    )
  project_op recurse start (update_op u) col_names = panic
  project_op recurse start (read_deltas d) col_names = panic
  project_op recurse start (write_deltas d) col_names = panic

  unfoldable pub push_projection : ℕ → ℕ → List String → Outcome (LogicalPlan × List String)
  push_projection zero start col_names = panic
  push_projection (suc fuel) start col_names = do
    op ← unwrap (get_operator lp start)
    project_op (λ i cols. push_projection fuel i cols) start op col_names

  unfoldable pub apply : ℕ → Outcome LogicalPlan
  apply fuel = do root ← unwrap lp.root; done ← push_projection fuel root []; ok done.0
