-- ===== src/Plan/Tree/Merge.antt =====
-- `LogicalPlan::merge` of common/src/logical_plan/mod.rs: a copy of the other plan beside the first one,
-- and a new root over both.
use crustydb_labs_cs378_spri.Prelude.{
  ℕ, ◌+◌, ◌<◌, ◌≡◌, refl, sym, ap, ◌∙◌, subst, List, [], ◌∷◌, ◌++◌, Option, none, some, map, ◌==◌,
  nat_eq, true, beq_refl, if◌then◌else◌, length, length-append, ok, >>=-ok, unwrap, arith,
}
use crustydb_labs_cs378_spri.Plan.Graph.{Edge, node_data}
use crustydb_labs_cs378_spri.Plan.Graph.Nodes.{node_data-add_node, node_data-new, node_data-lt}
use crustydb_labs_cs378_spri.Plan.Graph.Targets.{targets_of, targets_of-fresh, Bounded, append_nil}
use crustydb_labs_cs378_spri.Plan.Logical.{
  LogicalOp, LogicalPlan, add_node, add_edge, moved_root, root_or, copy_nodes, copy_edges, merge,
  joins_two,
}
use crustydb_labs_cs378_spri.Plan.Tree.{
  TwoOp, two_op, joining, crossing, PlanTree, both, Stands, StandsIn, Stands-some, embed-Stands,
}
use crustydb_labs_cs378_spri.Plan.Tree.Build.{
  PlanInv, Represents, Linked, add_edge-Linked, add_node-PlanInv, map_id, other_targets,
}
use crustydb_labs_cs378_spri.Plan.Tree.Copy.{
  CopiedNodes, copy_nodes-CopiedNodes, CopiedEdges, copy_edges-CopiedEdges, copied_at,
}

two_op-joins_two : (op : TwoOp) → joins_two (two_op op) ≡ true
two_op-joins_two (joining j) = refl
two_op-joins_two (crossing c) = refl

-- The calls of `merge` one after the other.
merge_chain :
    (lp : LogicalPlan) (op : LogicalOp) (other lp1 lp2 lp3 : LogicalPlan) (rl rr right : ℕ)
    → joins_two op ≡ true
    → lp.root ≡ some rl
    → other.root ≡ some rr
    → copy_edges
        (copy_nodes lp (λ _. none) 0 other.dataflow.nodes).0
        (copy_nodes lp (λ _. none) 0 other.dataflow.nodes).1
        other.dataflow.edge_list
      ≡ ok lp1
    → (copy_nodes lp (λ _. none) 0 other.dataflow.nodes).1 rr ≡ some right
    → add_edge (add_node lp1 op).1 (add_node lp1 op).0 right ≡ ok lp2
    → add_edge lp2 (add_node lp1 op).0 rl ≡ ok lp3
    → merge lp op other ≡ ok lp3
unfolding merge
merge_chain lp op other lp1 lp2 lp3 rl rr right two at_l at_r copied known first second = rw (two) (
    >>=-ok _ _ (ap unwrap at_l) (
      >>=-ok _ _ (ap unwrap at_r)
        (>>=-ok _ _ copied (>>=-ok _ _ (ap unwrap known) (>>=-ok _ _ first second)))))

-- The nodes after those of the first plan have no older targets.
fresh_part :
    (ts : List ℕ) (n i : ℕ) (es : List Edge) → Bounded n es → ts ++ targets_of es (n + i) ≡ ts
fresh_part ts n i es b = rw (targets_of-fresh n (n + i) es (omega arith) b) (append_nil ts)

module _ (lp other lpc lp1 lp2 lp3 : LogicalPlan) (m : ℕ → Option ℕ) (op : LogicalOp)
    (rl rr n new : ℕ) (size : n ≡ length lp.dataflow.nodes)
    (at_new : new ≡ length lp1.dataflow.nodes) (v : PlanInv lp)
    (cn : CopiedNodes lp lpc m n 0 rl other.dataflow.nodes)
    (ce : CopiedEdges lpc lp1 m n rl other.dataflow.edge_list)
    (first : Linked (add_node lp1 op).1 lp2 new (n + rr)) (second : Linked lp2 lp3 new rl) where
  old_targets :
      (u : ℕ) → u < new → targets_of lp3.dataflow.edge_list u ≡ targets_of lp1.dataflow.edge_list u
  old_targets u h =
      second.targets u
      ∙ other_targets new u rl _ h
      ∙ first.targets u
      ∙ other_targets new u (n + rr) _ h

  old_ops :
      (u : ℕ) (o : LogicalOp)
      → node_data lp1.dataflow u ≡ some o
      → node_data lp3.dataflow u ≡ some o
  old_ops u o h = second.ops u ∙ first.ops u ∙ node_data-add_node lp1.dataflow op u h

  new_targets : targets_of lp3.dataflow.edge_list new ≡ rl ∷ (n + rr) ∷ []
  new_targets =
      second.targets new
      ∙ ap (λ ts. (if new == new then rl ∷ [] else []) ++ ts) (first.targets new)
      ∙ rw (
        beq_refl new,
        targets_of-fresh (length lp1.dataflow.nodes) new lp1.dataflow.edge_list
            (omega (arith, at_new)) ce.inv.graph.bounded,
      )

  new_op : node_data lp3.dataflow new ≡ some op
  new_op =
      second.ops new
      ∙ first.ops new
      ∙ subst (λ u. node_data (add_node lp1 op).1.dataflow u ≡ some op) (sym at_new)
          (node_data-new lp1.dataflow op)

  new_size : new ≡ n + length other.dataflow.nodes
  new_size = omega (arith, ce.size, cn.size, at_new)

  left_Stands : (i : ℕ) (t : PlanTree) → StandsIn lp i t → StandsIn lp3 i t
  left_Stands i t stands =
      embed-Stands _ _ _ _ (λ i'. i') (λ i' o h. old_ops i' o (ce.ops i' ∙ cn.old i' o h))
        (λ i' o h.
          old_targets i' (omega (arith, node_data-lt lp.dataflow i' h, new_size, size))
          ∙ ce.old i' (omega (arith, node_data-lt lp.dataflow i' h, size))
          ∙ ap (λ es. targets_of es i') cn.same_edges
          ∙ sym (map_id (targets_of lp.dataflow.edge_list i')))
        i t stands

  right_Stands : (i : ℕ) (t : PlanTree) → StandsIn other i t → StandsIn lp3 (n + i) t
  right_Stands i t stands =
      embed-Stands _ _ _ _ (λ i'. n + i')
        (λ i' o h. old_ops (n + i') o (ce.ops (n + i') ∙ copied_at cn i' o h))
        (λ i' o h.
          old_targets (n + i') (omega (arith, node_data-lt other.dataflow i' h, new_size))
          ∙ ce.copied i'
          ∙ ap
              (λ es.
                map (λ t'. n + t') (targets_of other.dataflow.edge_list i')
                ++ targets_of es (n + i'))
              cn.same_edges
          ∙ fresh_part (map (λ t'. n + t') (targets_of other.dataflow.edge_list i')) n i'
              lp.dataflow.edge_list
              (subst (λ k. Bounded k lp.dataflow.edge_list) (sym size) v.graph.bounded))
        i t stands

  new_root : rl < n → lp3.root ≡ some new
  new_root h =
      second.root
      ∙ ap (λ o. moved_root o new rl)
          (first.root
            ∙ ap (λ o. moved_root (root_or o (length lp1.dataflow.nodes)) new (n + rr)) ce.root)
      ∙ ground (arith, nat_eq.beq_iff rl (n + rr), nat_eq.beq_iff rl rl)

Represents-both :
    (op : TwoOp) (lp other lpc lp1 lp2 lp3 : LogicalPlan) (m : ℕ → Option ℕ) (l r : PlanTree)
    (rl rr : ℕ)
    → PlanInv lp
    → CopiedNodes lp lpc m (length lp.dataflow.nodes) 0 rl other.dataflow.nodes
    → CopiedEdges lpc lp1 m (length lp.dataflow.nodes) rl other.dataflow.edge_list
    → Linked
        (add_node lp1 (two_op op)).1
        lp2
        (length lp1.dataflow.nodes)
        (length lp.dataflow.nodes + rr)
    → Linked lp2 lp3 (length lp1.dataflow.nodes) rl
    → rl < length lp.dataflow.nodes
    → StandsIn lp rl l
    → StandsIn other rr r
    → Represents lp3 (both op l r)
unfolding Stands
Represents-both op lp other lpc lp1 lp2 lp3 m l r rl rr v cn ce first second rl_lt stands_l
      stands_r =
    let n = length lp.dataflow.nodes in
    let new = length lp1.dataflow.nodes in
    (
      second.inv,
      new,
      new_root lp other lpc lp1 lp2 lp3 m (two_op op) rl rr n new refl refl v cn ce first second
          rl_lt,
      (
        new_op lp other lpc lp1 lp2 lp3 m (two_op op) rl rr n new refl refl v cn ce first second,
        rl,
        n + rr,
        new_targets lp other lpc lp1 lp2 lp3 m (two_op op) rl rr n new refl refl v cn ce first
            second,
        left_Stands lp other lpc lp1 lp2 lp3 m (two_op op) rl rr n new refl refl v cn ce first
            second rl l stands_l,
        right_Stands lp other lpc lp1 lp2 lp3 m (two_op op) rl rr n new refl refl v cn ce first
            second rr r stands_r,
      ),
    )

link_roots :
    (op : TwoOp) (lp other lp1 : LogicalPlan) (l r : PlanTree) (rl rr : ℕ)
    → PlanInv lp
    → lp.root ≡ some rl
    → other.root ≡ some rr
    → StandsIn lp rl l
    → StandsIn other rr r
    → rl < length lp.dataflow.nodes
    → rr < length other.dataflow.nodes
    → CopiedNodes lp
        (copy_nodes lp (λ _. none) 0 other.dataflow.nodes).0
        (copy_nodes lp (λ _. none) 0 other.dataflow.nodes).1
        (length lp.dataflow.nodes)
        0
        rl
        other.dataflow.nodes
    → CopiedEdges
        (copy_nodes lp (λ _. none) 0 other.dataflow.nodes).0
        lp1
        (copy_nodes lp (λ _. none) 0 other.dataflow.nodes).1
        (length lp.dataflow.nodes)
        rl
        other.dataflow.edge_list
    → (lp' : LogicalPlan) × (merge lp (two_op op) other ≡ ok lp') × Represents lp' (both op l r)
unfolding Stands
link_roots op lp other lp1 l r rl rr v at_l at_r stands_l stands_r rl_lt rr_lt cn ce =
    let n = length lp.dataflow.nodes in
    let new = length lp1.dataflow.nodes in
    let longer =
      length-append lp1.dataflow.nodes (record { value = two_op op; outgoing_edge = none } ∷ []) in
    let new_at : new ≡ n + length other.dataflow.nodes = omega (arith, ce.size, cn.size) in
    let (lp2, first) =
      add_edge-Linked (add_node lp1 (two_op op)).1 new (n + rr)
        (add_node-PlanInv lp1 (two_op op) ce.inv) (omega (arith, longer)) (omega (arith, longer))
        (λ e. omega (arith, e)) in
    let (lp3, second) =
      add_edge-Linked lp2 new rl first.inv (omega (arith, longer, first.size))
        (omega (arith, longer, first.size)) (λ e. omega (arith, e)) in
    (
      lp3,
      merge_chain lp (two_op op) other lp1 lp2 lp3 rl rr (n + rr) (two_op-joins_two op) at_l at_r
          ce.done (cn.known rr (omega arith)) first.added second.added,
      Represents-both op lp other _ lp1 lp2 lp3 _ l r rl rr v cn ce first second rl_lt stands_l
          stands_r,
    )

-- The merge of two plans that represent trees represents the tree with both under the new root, the
-- receiver on the left.
pub merge-Represents :
    (op : TwoOp) (lp other : LogicalPlan) (l r : PlanTree)
    → Represents lp l
    → Represents other r
    → (lp' : LogicalPlan) × (merge lp (two_op op) other ≡ ok lp') × Represents lp' (both op l r)
unfolding Stands
merge-Represents op lp other l r (v, rl, at_l, stands_l) (w, rr, at_r, stands_r) =
    let n = length lp.dataflow.nodes in
    let (ol, op_l) = Stands-some _ _ rl l stands_l in
    let (or', op_r) = Stands-some _ _ rr r stands_r in
    let rl_lt : rl < n = node_data-lt lp.dataflow rl op_l in
    let rr_lt : rr < length other.dataflow.nodes = node_data-lt other.dataflow rr op_r in
    let cn =
      copy_nodes-CopiedNodes lp (λ _. none) n 0 rl other.dataflow.nodes v at_l (omega arith)
        (λ j h. absurd (omega (arith, h))) in
    let (lp1, ce) =
      copy_edges-CopiedEdges (copy_nodes lp (λ _. none) 0 other.dataflow.nodes).0
        (copy_nodes lp (λ _. none) 0 other.dataflow.nodes).1 n (length other.dataflow.nodes) rl
        other.dataflow.edge_list cn.inv cn.root rl_lt (omega (arith, cn.size))
        (λ j h. cn.known j (omega (arith, h))) w.graph.bounded w.loopless in
    link_roots op lp other lp1 l r rl rr v at_l at_r stands_l stands_r rl_lt rr_lt cn ce
