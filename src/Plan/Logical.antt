-- ===== src/Plan/Logical.antt =====
-- Logical plans: common/src/logical_plan/mod.rs, logical_op.rs and delta_op.rs. The plan as json is not
-- modelled. A `HashMap` from old nodes to new ones is the function of its entries.
use crustydb_labs_cs378_spri.Prelude.{
  ℕ, suc, Bool, true, false, List, [], ◌∷◌, Option, none, some, String, ◌==◌, nat_eq, update,
  if◌then◌else◌, Outcome, ok, panic, ◌>>=◌, unwrap,
}
use crustydb_labs_cs378_spri.Expr.Field.{Field}
use crustydb_labs_cs378_spri.Expr.Ast.{AstExpr}
use crustydb_labs_cs378_spri.Plan.Graph.{Node, Edge, CrustyGraph, node_data}
use crustydb_labs_cs378_spri.Plan.Graph

pub record ScanNode : Type 0 where
  pub container_id : ℕ
  pub filter : Option AstExpr
  pub projection : Option (List AstExpr)

pub record ProjectNode : Type 0 where
  pub identifiers : List AstExpr

pub record AggregateNode : Type 0 where
  pub fields : List AstExpr
  pub group_by : List AstExpr
  pub having : Option AstExpr

pub record JoinNode : Type 0 where
  pub eqs : List (AstExpr × AstExpr)
  pub filter : Option AstExpr

pub record CrossProductNode : Type 0 where
  pub filter : Option AstExpr

pub record FilterNode : Type 0 where
  pub predicate : AstExpr

-- A field is with `true` if its order is ascending.
pub record SortNode : Type 0 where
  pub fields : List (AstExpr × Bool)

pub record ReadDeltasNode : Type 0 where
  pub object_id : ℕ

pub record WriteDeltasNode : Type 0 where
  pub object_id : ℕ

pub record UpdateNode : Type 0 where
  pub alias : String
  pub container_id : ℕ
  pub assignments : List (AstExpr × Field)

pub data LogicalOp : Type 0 where
  scan : ScanNode → LogicalOp
  project : ProjectNode → LogicalOp
  filter : FilterNode → LogicalOp
  aggregate : AggregateNode → LogicalOp
  join : JoinNode → LogicalOp
  cross_product : CrossProductNode → LogicalOp
  sort : SortNode → LogicalOp
  read_deltas : ReadDeltasNode → LogicalOp
  write_deltas : WriteDeltasNode → LogicalOp
  update_op : UpdateNode → LogicalOp

pub record LogicalPlan : Type 0 where
  pub dataflow : CrustyGraph LogicalOp
  pub root : Option ℕ

abbrev pub new : LogicalPlan
new = record { dataflow = Graph.new; root = none }

-- The first node of a plan is its root.
abbrev pub root_or : Option ℕ → ℕ → Option ℕ
root_or none i = some i
root_or (some r) i = some r

abbrev pub add_node : LogicalPlan → LogicalOp → ℕ × LogicalPlan
add_node lp operator =
    let added = Graph.add_node lp.dataflow operator in
    (added.0, record { dataflow = added.1; root = root_or lp.root added.0 })

-- An edge to the root makes its source the root.
abbrev pub moved_root : Option ℕ → ℕ → ℕ → Option ℕ
moved_root none source target = none
moved_root (some index) source target = if index == target then some source else some index

unfoldable pub add_edge : LogicalPlan → ℕ → ℕ → Outcome LogicalPlan
add_edge lp source target = if source == target then panic else (do
  g ← Graph.add_edge lp.dataflow source target
  ok (record { dataflow = g; root = moved_root lp.root source target }))

abbrev pub edges : LogicalPlan → ℕ → Outcome (List ℕ)
edges lp from = Graph.edges lp.dataflow from

abbrev pub get_operator : LogicalPlan → ℕ → Option LogicalOp
get_operator lp index = node_data lp.dataflow index

abbrev pub node_count : LogicalPlan → ℕ
node_count lp = Graph.node_count lp.dataflow

abbrev pub edge_count : LogicalPlan → ℕ
edge_count lp = Graph.edge_count lp.dataflow

-- The loop of `merge` over the nodes of the other plan, at node `i`.
unfoldable pub copy_nodes :
    LogicalPlan → (ℕ → Option ℕ) → ℕ → List (Node LogicalOp) → LogicalPlan × (ℕ → Option ℕ)
copy_nodes lp node_map i [] = (lp, node_map)
copy_nodes lp node_map i (node ∷ nodes) =
    let added = add_node lp node.value in
    copy_nodes added.1 (update node_map i added.0) (suc i) nodes

-- The loop over its edges.
unfoldable pub copy_edges : LogicalPlan → (ℕ → Option ℕ) → List Edge → Outcome LogicalPlan
copy_edges lp node_map [] = ok lp
copy_edges lp node_map (edge ∷ rest) = do
  new_source ← unwrap (node_map edge.source)
  new_target ← unwrap (node_map edge.target)
  lp' ← add_edge lp new_source new_target
  copy_edges lp' node_map rest

abbrev pub joins_two : LogicalOp → Bool
joins_two (join j) = true
joins_two (cross_product c) = true
joins_two _ = false

-- The right child is the first edge to be added.
unfoldable pub merge : LogicalPlan → LogicalOp → LogicalPlan → Outcome LogicalPlan
merge lp new_root other =
    if joins_two new_root
    then (do
      root_left ← unwrap lp.root
      root_right ← unwrap other.root
      let copied = copy_nodes lp (λ _. none) 0 other.dataflow.nodes
      lp' ← copy_edges copied.0 copied.1 other.dataflow.edge_list
      let added = add_node lp' new_root
      right ← unwrap (copied.1 root_right)
      lp'' ← add_edge added.1 added.0 right
      add_edge lp'' added.0 root_left)
    else panic

-- What the builders of a node over one child do with the new node: an edge to the child that is given,
-- or else to the root, which the new node replaces.
unfoldable pub link_one : LogicalPlan → LogicalOp → Option ℕ → Outcome (ℕ × LogicalPlan)
link_one lp operator (some child_index) = do
  let added = Graph.add_node lp.dataflow operator
  g ← Graph.add_edge added.1 added.0 child_index
  ok (added.0, record lp { dataflow = g })
link_one lp operator none = do
  let added = Graph.add_node lp.dataflow operator
  elim lp.root [
    | some root_idx ↦ do
      g ← Graph.add_edge added.1 added.0 root_idx
      ok (added.0, record { dataflow = g; root = some added.0 })
    | none ↦ ok (added.0, record lp { dataflow = added.1 })
  ]

-- What the builders of a node over two children do: the left edge first, and the new node is the root.
unfoldable pub link_two : LogicalPlan → LogicalOp → ℕ → ℕ → Outcome (ℕ × LogicalPlan)
link_two lp operator left_idx right_idx = do
  let added = Graph.add_node lp.dataflow operator
  g ← Graph.add_edge added.1 added.0 left_idx
  g' ← Graph.add_edge g added.0 right_idx
  ok (added.0, record { dataflow = g'; root = some added.0 })

abbrev pub add_scan_node :
    LogicalPlan → ℕ → Option AstExpr → Option (List AstExpr) → ℕ × LogicalPlan
add_scan_node lp c f p =
    add_node lp (scan (record { container_id = c; filter = f; projection = p }))

abbrev pub add_filter_node : LogicalPlan → AstExpr → Option ℕ → Outcome (ℕ × LogicalPlan)
add_filter_node lp p child_idx = link_one lp (filter (record { predicate = p })) child_idx

abbrev pub add_projection_node : LogicalPlan → List AstExpr → Option ℕ → Outcome (ℕ × LogicalPlan)
add_projection_node lp ids child_idx =
    link_one lp (project (record { identifiers = ids })) child_idx

abbrev pub add_join_node :
    LogicalPlan → List (AstExpr × AstExpr) → Option AstExpr → ℕ → ℕ → Outcome (ℕ × LogicalPlan)
add_join_node lp es f left_idx right_idx =
    link_two lp (join (record { eqs = es; filter = f })) left_idx right_idx

abbrev pub add_cross_product_node : LogicalPlan → Option AstExpr → ℕ → ℕ → Outcome (ℕ × LogicalPlan)
add_cross_product_node lp f left_idx right_idx =
    link_two lp (cross_product (record { filter = f })) left_idx right_idx

abbrev pub add_agg_node :
    LogicalPlan
    → List AstExpr
    → List AstExpr
    → Option AstExpr
    → Option ℕ
    → Outcome (ℕ × LogicalPlan)
add_agg_node lp fs gs h child_idx =
    link_one lp (aggregate (record { fields = fs; group_by = gs; having = h })) child_idx
