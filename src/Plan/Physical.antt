-- ===== src/Plan/Physical.antt =====
-- Physical plans and their making: common/src/physical_plan/mod.rs and physical_op.rs, and
-- `logical_plan_to_physical_plan` of queryexe/src/query/planner.rs, which never reads its catalog.
pub mod Operators
pub mod Convert
use crustydb_labs_cs378_spri.Prelude.{
  ℕ, Bool, true, false, ◌&&◌, List, [], ◌∷◌, ◌++◌, Option, none, some, String, ◌==◌, nat_eq,
  if◌then◌else◌, Outcome, ok, panic, ◌>>=◌, unwrap,
}
use crustydb_labs_cs378_spri.Expr.Field.{Field, BooleanOp, eq}
use crustydb_labs_cs378_spri.Expr.Ast.{AstExpr, ident}
use crustydb_labs_cs378_spri.Plan.Graph.{Node, Edge, CrustyGraph}
use crustydb_labs_cs378_spri.Plan.Graph
use crustydb_labs_cs378_spri.Plan.Logical.{
  LogicalOp, scan, project, filter, aggregate, join, cross_product, sort, read_deltas, write_deltas,
  update_op, LogicalPlan, root_or, moved_root,
}

pub record PhysicalScanNode : Type 0 where
  pub container_id : ℕ
  pub filter : Option AstExpr
  pub projection : Option (List AstExpr)

pub record PhysicalProjectNode : Type 0 where
  pub identifiers : List AstExpr

pub record PhysicalUpdateNode : Type 0 where
  pub alias : String
  pub container_id : ℕ
  pub assignments : List (AstExpr × Field)

pub record PhysicalHashAggregateNode : Type 0 where
  pub fields : List AstExpr
  pub group_by : List AstExpr

pub record PhysicalNestedLoopJoinNode : Type 0 where
  pub left : AstExpr
  pub right : AstExpr
  pub op : BooleanOp

pub record PhysicalHashJoinNode : Type 0 where
  pub left : AstExpr
  pub right : AstExpr
  pub op : BooleanOp

pub record PhysicalFilterNode : Type 0 where
  pub predicate : AstExpr

pub record MaterializedViewNode : Type 0 where
  pub materialized_view_state_id : ℕ

pub record PhysicalSortNode : Type 0 where
  pub fields : List (AstExpr × Bool)

pub record PhysicalSortMergeJoinNode : Type 0 where
  pub left_expr : List (AstExpr × Bool)
  pub right_expr : List (AstExpr × Bool)

pub data PhysicalOp : Type 0 where
  scan_op : PhysicalScanNode → PhysicalOp
  project_op : PhysicalProjectNode → PhysicalOp
  hash_aggregate : PhysicalHashAggregateNode → PhysicalOp
  cross_product_op : PhysicalOp
  nested_loop_join : PhysicalNestedLoopJoinNode → PhysicalOp
  hash_join : PhysicalHashJoinNode → PhysicalOp
  filter_op : PhysicalFilterNode → PhysicalOp
  materialized_view : MaterializedViewNode → PhysicalOp
  update_table : PhysicalUpdateNode → PhysicalOp
  sort_op : PhysicalSortNode → PhysicalOp
  sort_merge_join : PhysicalSortMergeJoinNode → PhysicalOp

pub record PhysicalPlan : Type 0 where
  pub dataflow : CrustyGraph PhysicalOp
  pub root : Option ℕ
  pub base_tables : List ℕ
  pub hash_tables : List ℕ

abbrev pub new : PhysicalPlan
new = record { dataflow = Graph.new; root = none; base_tables = []; hash_tables = [] }

abbrev pub add_base_table : PhysicalPlan → ℕ → PhysicalPlan
add_base_table pp base_table_id = record pp { base_tables = pp.base_tables ++ base_table_id ∷ [] }

abbrev pub add_node : PhysicalPlan → PhysicalOp → ℕ × PhysicalPlan
add_node pp operator =
    let added = Graph.add_node pp.dataflow operator in
    (added.0, record pp { dataflow = added.1; root = root_or pp.root added.0 })

unfoldable pub add_edge : PhysicalPlan → ℕ → ℕ → Outcome PhysicalPlan
add_edge pp source target = if source == target then panic else (do
  g ← Graph.add_edge pp.dataflow source target
  ok (record pp { dataflow = g; root = moved_root pp.root source target }))

abbrev pub is_ident : AstExpr → Bool
is_ident (ident n) = true
is_ident _ = false

-- A join of two columns is by hashing. Only the first equality is read.
abbrev pub join_op : List (AstExpr × AstExpr) → Outcome PhysicalOp
join_op [] = panic
join_op ((l, r) ∷ eqs) = ok (
    if is_ident l && is_ident r
    then hash_join (record { left = l; right = r; op = eq })
    else nested_loop_join (record { left = l; right = r; op = eq }))

unfoldable pub logical_op_to_physical_op :
    LogicalOp → PhysicalPlan → Outcome (PhysicalOp × PhysicalPlan)
logical_op_to_physical_op (read_deltas d) pp = panic
logical_op_to_physical_op (write_deltas d) pp = panic
logical_op_to_physical_op (update_op u) pp = panic
logical_op_to_physical_op (scan s) pp = ok (
  scan_op (record { container_id = s.container_id; filter = s.filter; projection = s.projection }),
  add_base_table pp s.container_id,
)
logical_op_to_physical_op (project p) pp =
    ok (project_op (record { identifiers = p.identifiers }), pp)
logical_op_to_physical_op (aggregate a) pp =
    ok (hash_aggregate (record { fields = a.fields; group_by = a.group_by }), pp)
logical_op_to_physical_op (cross_product c) pp = ok (cross_product_op, pp)
logical_op_to_physical_op (join j) pp = do op ← join_op j.eqs; ok (op, pp)
logical_op_to_physical_op (filter f) pp = ok (filter_op (record { predicate = f.predicate }), pp)
logical_op_to_physical_op (sort s) pp = ok (sort_op (record { fields = s.fields }), pp)

-- The loop over the nodes.
unfoldable pub convert_nodes : List (Node LogicalOp) → PhysicalPlan → Outcome PhysicalPlan
convert_nodes [] pp = ok pp
convert_nodes (node ∷ nodes) pp = do
  converted ← logical_op_to_physical_op node.value pp
  convert_nodes nodes (add_node converted.1 converted.0).1

-- The loop over the edges.
unfoldable pub convert_edges : List Edge → PhysicalPlan → Outcome PhysicalPlan
convert_edges [] pp = ok pp
convert_edges (edge ∷ rest) pp = do
  pp' ← add_edge pp edge.source edge.target
  convert_edges rest pp'

unfoldable pub logical_plan_to_physical_plan : LogicalPlan → Outcome PhysicalPlan
logical_plan_to_physical_plan lp = do
  pp ← convert_nodes lp.dataflow.nodes new
  convert_edges lp.dataflow.edge_list pp
