-- ===== src/Plan/Physical/Convert.antt =====
-- `logical_plan_to_physical_plan` of queryexe/src/query/planner.rs: the shape of the physical plan.
use crustydb_labs_cs378_spri.Prelude.{
  ℕ, zero, suc, ◌+◌, ◌≡◌, refl, sym, ap, ◌∙◌, subst, false, List, [], ◌∷◌, ◌++◌, none, some, ◌==◌,
  nat_eq, length, length-append, get_elem?, ok, >>=-ok, arith,
}
use crustydb_labs_cs378_spri.Plan.Graph.{Node, Edge, CrustyGraph, node_data, value_of}
use crustydb_labs_cs378_spri.Plan.Graph.Nodes.{node_data-add_node, node_data-new}
use crustydb_labs_cs378_spri.Plan.Graph.Targets.{
  targets_of, targets_of-append, append_assoc, append_nil, Bounded, Inv, new-Inv, add_node-Inv,
  add_edge-Inv,
}
use crustydb_labs_cs378_spri.Plan.Logical.{LogicalOp, LogicalPlan, moved_root}
use crustydb_labs_cs378_spri.Plan.Tree.Build.{PlanInv, Loopless}
use crustydb_labs_cs378_spri.Plan.Physical.{
  PhysicalOp, PhysicalPlan, new, add_node, add_edge, convert_nodes, convert_edges,
  logical_plan_to_physical_plan,
}
use crustydb_labs_cs378_spri.Plan.Physical.Operators.{
  converted, Convertible, scanned, scanned_tables, some_inj, logical_op_to_physical_op-OneConverted,
}

-- What the loop over the nodes comes to, from node `i` on.
record ConvertedNodes (pp pp' : PhysicalPlan) (i : ℕ) (ns : List (Node LogicalOp)) : Type 0 where
  done : convert_nodes ns pp ≡ ok pp'
  inv : Inv pp'.dataflow
  same_edges : pp'.dataflow.edge_list ≡ pp.dataflow.edge_list
  size : length pp'.dataflow.nodes ≡ i + length ns
  old :
      (j : ℕ) (o : PhysicalOp)
      → node_data pp.dataflow j ≡ some o
      → node_data pp'.dataflow j ≡ some o
  made :
      (j : ℕ) (op : LogicalOp) (pop : PhysicalOp)
      → value_of (get_elem? ns j) ≡ some op
      → converted op ≡ some pop
      → node_data pp'.dataflow (i + j) ≡ some pop
  tables : pp'.base_tables ≡ pp.base_tables ++ scanned_tables ns

made_cons :
    (g : CrustyGraph PhysicalOp) (i : ℕ) (n : Node LogicalOp) (ns : List (Node LogicalOp))
    (pop0 : PhysicalOp)
    → converted n.value ≡ some pop0
    → node_data g i ≡ some pop0
    → ((j : ℕ) (op : LogicalOp) (pop : PhysicalOp)
        → value_of (get_elem? ns j) ≡ some op
        → converted op ≡ some pop
        → node_data g (suc i + j) ≡ some pop)
    → (j : ℕ) (op : LogicalOp) (pop : PhysicalOp) → value_of (get_elem? (n ∷ ns) j) ≡ some op
    → converted op ≡ some pop
    → node_data g (i + j) ≡ some pop
made_cons g i n ns pop0 is_pop0 here later zero op pop h c =
    ap (λ k. node_data g k) (omega arith)
    ∙ here
    ∙ sym is_pop0
    ∙ ap (λ o. converted o) (some_inj h)
    ∙ c
made_cons g i n ns pop0 is_pop0 here later (suc j) op pop h c =
    subst (λ k. node_data g k ≡ some pop) (omega arith) (later j op pop h c)

convert_nodes-ConvertedNodes :
    (pp : PhysicalPlan) (i : ℕ) (ns : List (Node LogicalOp))
    → Inv pp.dataflow
    → length pp.dataflow.nodes ≡ i
    → Convertible ns
    → (pp' : PhysicalPlan) × ConvertedNodes pp pp' i ns
unfolding convert_nodes
convert_nodes-ConvertedNodes pp i [] v size conv = (
  pp,
  record {
    done = refl;
    inv = v;
    same_edges = refl;
    size = omega (arith, size);
    old = λ j o h. h;
    made = λ j op pop h c. cc;
    tables = sym (append_nil pp.base_tables);
  },
)
convert_nodes-ConvertedNodes pp i (n ∷ ns) v size ((pop, is_pop), conv) =
    let (pp1, one) = logical_op_to_physical_op-OneConverted n.value pop pp is_pop in
    let v1 : Inv pp1.dataflow = subst (λ g. Inv g) (sym one.same) v in
    let size1 : length pp1.dataflow.nodes ≡ i = ap (λ g. length g.nodes) one.same ∙ size in
    let more =
      length-append pp1.dataflow.nodes (record { value = pop; outgoing_edge = none } ∷ []) in
    let (pp', rest) =
      convert_nodes-ConvertedNodes (add_node pp1 pop).1 (suc i) ns
        (add_node-Inv pp1.dataflow pop v1) (omega (arith, more, size1)) conv in
    (
      pp',
      record {
        done = >>=-ok _ _ one.done rest.done;
        inv = rest.inv;
        same_edges = rest.same_edges ∙ ap (λ g. g.edge_list) one.same;
        size = omega (arith, rest.size);
        old = λ j o h.
            rest.old j o
              (node_data-add_node pp1.dataflow pop j (ap (λ g. node_data g j) one.same ∙ h));
        made =
            made_cons pp'.dataflow i n ns pop is_pop
              (rest.old i pop (
                subst (λ k. node_data (add_node pp1 pop).1.dataflow k ≡ some pop) size1
                  (node_data-new pp1.dataflow pop)))
              rest.made;
        tables =
            rest.tables
            ∙ ap (λ ts. ts ++ scanned_tables ns) one.tables
            ∙ append_assoc pp.base_tables (scanned n.value) (scanned_tables ns);
      },
    )

-- What the loop over the edges comes to.
record ConvertedEdges (pp pp' : PhysicalPlan) (es : List Edge) : Type 0 where
  done : convert_edges es pp ≡ ok pp'
  inv : Inv pp'.dataflow
  size : length pp'.dataflow.nodes ≡ length pp.dataflow.nodes
  ops : (u : ℕ) → node_data pp'.dataflow u ≡ node_data pp.dataflow u
  targets :
      (u : ℕ)
      → targets_of pp'.dataflow.edge_list u ≡ targets_of es u ++ targets_of pp.dataflow.edge_list u
  tables : pp'.base_tables ≡ pp.base_tables

convert_edges-ConvertedEdges :
    (pp : PhysicalPlan) (es : List Edge)
    → Inv pp.dataflow
    → Bounded (length pp.dataflow.nodes) es
    → Loopless es
    → (pp' : PhysicalPlan) × ConvertedEdges pp pp' es
unfolding convert_edges add_edge
convert_edges-ConvertedEdges pp [] v b l = (
  pp,
  record { done = refl; inv = v; size = refl; ops = λ u. refl; targets = λ u. refl; tables = refl },
)
convert_edges-ConvertedEdges pp (e ∷ es) v (hs, ht, b) (other, l) =
    let (g, o, done, inv, list, ops, size) = add_edge-Inv pp.dataflow e.source e.target v hs ht in
    let not_same : (e.source == e.target) ≡ false =
      ground (arith, nat_eq.beq_iff e.source e.target, other) in
    let pp1 : PhysicalPlan = record pp {
      dataflow = g;
      root = moved_root pp.root e.source e.target;
    } in
    let step : add_edge pp e.source e.target ≡ ok pp1 = rw (not_same, done) refl in
    let one : Edge = record { source = e.source; target = e.target; next_edge = o } in
    let (pp', rest) =
      convert_edges-ConvertedEdges pp1 es inv (subst (λ k. Bounded k es) (sym size) b) l in
    (
      pp',
      record {
        done = >>=-ok _ _ step rest.done;
        inv = rest.inv;
        size = rest.size ∙ size;
        ops = λ u. rest.ops u ∙ ops u;
        targets = λ u.
            rest.targets u
            ∙ ap (λ ts. targets_of es u ++ ts)
                (ap (λ xs. targets_of xs u) list
                  ∙ targets_of-append pp.dataflow.edge_list (one ∷ []) u)
            ∙ sym (append_assoc (targets_of es u) _ (targets_of pp.dataflow.edge_list u));
        tables = rest.tables;
      },
    )

-- A well-formed logical plan in which every operator has a physical one (no deltas, no update, no join
-- without equalities) is converted without an error or a panic. The physical plan is well formed and has
-- the same nodes with the same targets in the same order; each operator is the one for the logical
-- operator, and the base tables are those of the scans, in order.
pub logical_plan_to_physical_plan-converted :
    (lp : LogicalPlan)
    → PlanInv lp
    → Convertible lp.dataflow.nodes
    → (pp : PhysicalPlan) × (logical_plan_to_physical_plan lp ≡ ok pp)
      × Inv pp.dataflow
      × (length pp.dataflow.nodes ≡ length lp.dataflow.nodes)
      × ((i : ℕ) (op : LogicalOp) (pop : PhysicalOp)
          → node_data lp.dataflow i ≡ some op
          → converted op ≡ some pop
          → node_data pp.dataflow i ≡ some pop)
      × ((i : ℕ) → targets_of pp.dataflow.edge_list i ≡ targets_of lp.dataflow.edge_list i)
      × (pp.base_tables ≡ scanned_tables lp.dataflow.nodes)
unfolding logical_plan_to_physical_plan
logical_plan_to_physical_plan-converted lp v conv =
    let (pp1, nodes) = convert_nodes-ConvertedNodes new 0 lp.dataflow.nodes new-Inv refl conv in
    let (pp, edges) =
      convert_edges-ConvertedEdges pp1 lp.dataflow.edge_list nodes.inv
        (subst (λ k. Bounded k lp.dataflow.edge_list) (omega (arith, nodes.size)) v.graph.bounded)
        v.loopless in
    (
      pp,
      >>=-ok _ _ nodes.done edges.done,
      edges.inv,
      omega (arith, edges.size, nodes.size),
      (λ i op pop h c.
          edges.ops i ∙ ap (λ k. node_data pp1.dataflow k) (omega arith) ∙ nodes.made i op pop h c),
      (λ i.
          edges.targets i
          ∙ ap (λ es. targets_of lp.dataflow.edge_list i ++ targets_of es i) nodes.same_edges
          ∙ append_nil (targets_of lp.dataflow.edge_list i)),
      edges.tables ∙ nodes.tables,
    )
