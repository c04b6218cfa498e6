-- ===== src/Plan/Tests.antt =====
-- The plan of `SELECT * FROM t0, t1 WHERE a = b AND a > 1`, built by hand and pushed down.
use crustydb_labs_cs378_spri.Prelude.{
  ℕ, zero, suc, ◌≡◌, refl, subst, Bool, List, [], ◌∷◌, ◌++◌, Option, none, some, String, string_eq,
  length, get_elem?, ok, arith, nat_eq, contains, without, Distinct, contains-without,
  Distinct-without, beq_refl, ◌∙◌,
}
use crustydb_labs_cs378_spri.Prelude.Int.{ℤ, pos}
use crustydb_labs_cs378_spri.Expr.Field.{int, quotient, eq, gt, and}
use crustydb_labs_cs378_spri.Expr.Ast.{AstExpr, literal, ident, boolean}
use crustydb_labs_cs378_spri.Plan.Graph.{Node, Edge, CrustyGraph, edges, add_edge, node_data}
use crustydb_labs_cs378_spri.Plan.Graph.Targets.{
  Inv, Walks, targets_of, edges-targets_of, add_edge-Inv,
}
use crustydb_labs_cs378_spri.Plan.Logical.{
  AggregateNode, LogicalOp, LogicalPlan, scan, filter, cross_product, merge,
}
use crustydb_labs_cs378_spri.Plan.Physical.{PhysicalOp, PhysicalPlan, logical_plan_to_physical_plan}
use crustydb_labs_cs378_spri.Plan.Physical.Operators.{converted, scanned_tables}
use crustydb_labs_cs378_spri.Plan.Physical.Convert.{logical_plan_to_physical_plan-converted}
use crustydb_labs_cs378_spri.Plan.Tree.{
  PlanTree, leaf, over, both, filtering, crossing, two_op, Stands,
}
use crustydb_labs_cs378_spri.Plan.Tree.Build.{PlanInv, Represents}
use crustydb_labs_cs378_spri.Plan.Tree.Merge.{merge-Represents}
use crustydb_labs_cs378_spri.Plan.Pushdown.{
  apply, is_subset, combine_predicates_with_and, separate_predicates_by_and,
}
use crustydb_labs_cs378_spri.Plan.Pushdown.Spec.{Ready}
use crustydb_labs_cs378_spri.Plan.Pushdown.Wanted.{wanted}
use crustydb_labs_cs378_spri.Plan.Pushdown.Refine.{Builds, apply-Builds}
use crustydb_labs_cs378_spri.Plan.Projection
use crustydb_labs_cs378_spri.Plan.Projection.Spec.{ListsOnce, Narrowed}
use crustydb_labs_cs378_spri.Plan.Projection.Refine.{apply-Narrowed}
use crustydb_labs_cs378_spri.Plan.Pushdown.Truth.{combine-separate}
use crustydb_labs_cs378_spri.Plan.Pushdown.Rows.{Scoped, apply-rows}
use crustydb_labs_cs378_spri.Plan.Rows.{Row, rows, holds, filter_holds}

abbrev scan_0 : LogicalOp
scan_0 = scan (record { container_id = 0; filter = none; projection = none })

abbrev scan_1 : LogicalOp
scan_1 = scan (record { container_id = 1; filter = none; projection = none })

abbrev predicate : AstExpr
predicate =
    boolean and (boolean eq (ident "a") (ident "b"))
      (boolean gt (ident "a") (literal (int (pos 1))))

abbrev node : LogicalOp → Option ℕ → Node LogicalOp
node op o = record { value = op; outgoing_edge = o }

abbrev edge : ℕ → ℕ → Option ℕ → Edge
edge s t o = record { source = s; target = t; next_edge = o }

abbrev edge_list : List Edge
edge_list = edge 2 1 none ∷ edge 2 0 (some 0) ∷ edge 3 2 none ∷ []

abbrev graph : CrustyGraph LogicalOp
graph = record {
  nodes =
      node scan_0 none
      ∷ node scan_1 none
      ∷ node (cross_product (record { filter = none })) (some 1)
      ∷ node (filter (record { predicate = predicate })) (some 2)
      ∷ [];
  edge_list = edge_list;
}

abbrev plan : LogicalPlan
plan = record { dataflow = graph; root = some 3 }

abbrev tree : PlanTree
tree = over (filtering (record { predicate = predicate })) (
    both (crossing (record { filter = none }))
      (leaf (record { container_id = 0; filter = none; projection = none }))
      (leaf (record { container_id = 1; filter = none; projection = none })))

same_edge : (x y : Node LogicalOp) → some x ≡ some y → x.outgoing_edge ≡ y.outgoing_edge
same_edge x y e = ground (arith, e)

linked :
    (s : ℕ) (n : Node LogicalOp)
    → get_elem? graph.nodes s ≡ some n
    → Walks edge_list 3 n.outgoing_edge (targets_of edge_list s)
linked zero n at = subst (λ o. o ≡ none) (same_edge _ n at) refl
linked (suc zero) n at = subst (λ o. o ≡ none) (same_edge _ n at) refl
linked (suc (suc zero)) n at =
    subst (λ o. Walks edge_list 3 o (0 ∷ 1 ∷ [])) (same_edge _ n at)
      (
        1,
        edge 2 0 (some 0),
        refl,
        omega arith,
        refl,
        refl,
        (0, edge 2 1 none, refl, omega arith, refl, refl, refl),
      )
linked (suc (suc (suc zero))) n at =
    subst (λ o. Walks edge_list 3 o (2 ∷ [])) (same_edge _ n at)
      (2, edge 3 2 none, refl, omega arith, refl, refl, refl)
linked (suc (suc (suc (suc s)))) n at = cc

graph-Inv : Inv graph
graph-Inv = record {
  bounded = (omega arith, omega arith, (omega arith, omega arith, (omega arith, omega arith, tt)));
  linked = linked;
}

plan-PlanInv : PlanInv plan
plan-PlanInv = record {
  graph = graph-Inv;
  loopless = ((λ e. omega arith), ((λ e. omega arith), ((λ e. omega arith), tt)));
}

plan-Represents : Represents plan tree
unfolding Stands
plan-Represents =
    (plan-PlanInv, 3, refl, (refl, 2, refl, (refl, 0, 1, refl, (refl, refl), (refl, refl))))

abbrev catalog : ℕ → Option (List String)
catalog zero = some ("a" ∷ [])
catalog (suc zero) = some ("b" ∷ [])
catalog (suc (suc n)) = none

abbrev row : ℕ → Row
row n = int (pos n) ∷ []

abbrev tables : ℕ → List Row
tables zero = row 1 ∷ row 2 ∷ []
tables (suc zero) = row 2 ∷ row 3 ∷ []
tables (suc (suc n)) = []

abbrev aggregated : AggregateNode → List String → List Row → List Row
aggregated a schema rs = rs

abbrev sorted : List (AstExpr × Bool) → List String → List Row → List Row
sorted fields schema rs = rs

tree-Ready : Ready catalog tree
tree-Ready = (((tt, tt), (tt, tt)), (tt, (tt, ("a" ∷ [], refl)), (tt, ("b" ∷ [], refl))))

tree-Scoped : Scoped catalog tables tree
unfolding is_subset contains
tree-Scoped = (
  ((((tt, tt), (tt, tt))), refl),
  (tt, (refl, tt), ((refl, (refl, tt)), tt, tt), ((refl, (refl, tt)), tt, tt)),
)

abbrev divide : ℤ → ℤ → ℤ
divide a b = quotient a b

apply-rows_example :
    (lp' : LogicalPlan) × (t' : PlanTree) × (apply catalog plan 3 ≡ ok lp')
    × Represents lp' t'
    × (rows divide catalog tables aggregated sorted t'
        ≡ rows divide catalog tables aggregated sorted tree)
apply-rows_example =
    apply-rows catalog tables divide aggregated sorted plan 3 tree plan-Represents tree-Ready
      tree-Scoped (omega arith)

apply-Builds_example : Builds (apply catalog plan 3) (wanted catalog tree [])
apply-Builds_example = apply-Builds catalog plan 3 tree plan-Represents tree-Ready (omega arith)

merge_example :
    (lp' : LogicalPlan) × (merge plan (two_op (crossing (record { filter = none }))) plan ≡ ok lp')
    × Represents lp' (both (crossing (record { filter = none })) tree tree)
merge_example =
    merge-Represents (crossing (record { filter = none })) plan plan tree tree plan-Represents
      plan-Represents

edges_example : edges graph 2 ≡ ok (targets_of graph.edge_list 2)
edges_example = edges-targets_of graph 2 graph-Inv (omega arith)

add_edge_example :
    (h : CrustyGraph LogicalOp) × (o : Option ℕ) × (add_edge graph 2 1 ≡ ok h)
    × Inv h
    × (h.edge_list ≡ graph.edge_list ++ record { source = 2; target = 1; next_edge = o } ∷ [])
    × ((u : ℕ) → node_data h u ≡ node_data graph u)
    × (length h.nodes ≡ length graph.nodes)
add_edge_example = add_edge-Inv graph 2 1 graph-Inv (omega arith) (omega arith)

combine_example :
    filter_holds divide
      ("a" ∷ "b" ∷ [])
      (combine_predicates_with_and (separate_predicates_by_and predicate []))
      (int (pos 2) ∷ int (pos 2) ∷ [])
    ≡ holds divide ("a" ∷ "b" ∷ []) predicate (int (pos 2) ∷ int (pos 2) ∷ [])
combine_example =
    combine-separate divide ("a" ∷ "b" ∷ []) (int (pos 2) ∷ int (pos 2) ∷ []) predicate

convert_example :
    (pp : PhysicalPlan) × (logical_plan_to_physical_plan plan ≡ ok pp)
    × Inv pp.dataflow
    × (length pp.dataflow.nodes ≡ length plan.dataflow.nodes)
    × ((i : ℕ) (op : LogicalOp) (pop : PhysicalOp)
        → node_data plan.dataflow i ≡ some op
        → converted op ≡ some pop
        → node_data pp.dataflow i ≡ some pop)
    × ((i : ℕ) → targets_of pp.dataflow.edge_list i ≡ targets_of plan.dataflow.edge_list i)
    × (pp.base_tables ≡ scanned_tables plan.dataflow.nodes)
convert_example =
    logical_plan_to_physical_plan-converted plan plan-PlanInv
      ((_, refl), ((_, refl), ((_, refl), ((_, refl), tt))))

abbrev schema_of : ℕ → List String
schema_of zero = "a" ∷ []
schema_of (suc n) = "b" ∷ []

-- A set that lists its elements in the order of their last insertion.
abbrev elements : List String → List String
elements [] = []
elements (x ∷ xs) = x ∷ without (elements xs) x

elements-Distinct : (xs : List String) → Distinct (elements xs)
elements-Distinct [] = tt
elements-Distinct (x ∷ xs) = (
  contains-without (elements xs) x x ∙ rw (beq_refl x),
  Distinct-without (elements xs) x (elements-Distinct xs),
)

contains-elements : (xs : List String) (y : String) → contains (elements xs) y ≡ contains xs y
unfolding contains
contains-elements [] y = refl
contains-elements (x ∷ xs) y =
    rw (contains-without (elements xs) x y, contains-elements xs y) (ground arith)

elements-ListsOnce : ListsOnce elements
elements-ListsOnce = record { once = elements-Distinct; members = contains-elements }

apply-Narrowed_example :
    (lp' : LogicalPlan) × (t' : PlanTree) × (Projection.apply elements catalog plan 3 ≡ ok lp')
    × Represents lp' t'
    × Narrowed schema_of tree [] t'
apply-Narrowed_example =
    apply-Narrowed elements catalog schema_of plan 3 tree elements-ListsOnce plan-Represents
      (((tt, tt), (tt, tt)), (tt, refl, refl)) (omega arith)
