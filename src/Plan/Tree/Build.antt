-- ===== src/Plan/Tree/Build.antt =====
-- A new operator over a plan: what `add_node` and `add_edge` of logical_plan/mod.rs do to the tree.
use crustydb_labs_cs378_spri.Prelude.{
  ℕ, ◌<◌, ◌≡◌, ◌≢◌, refl, sym, ap, ◌∙◌, subst, List, [], ◌∷◌, ◌++◌, none, some, map, ◌==◌, nat_eq,
  false, beq_refl, if◌then◌else◌, length, length-append, ok, ◌>>=◌, unwrap, arith,
}
use crustydb_labs_cs378_spri.Plan.Graph.{Edge, node_data}
use crustydb_labs_cs378_spri.Plan.Graph.Nodes.{node_data-add_node, node_data-new, node_data-lt}
use crustydb_labs_cs378_spri.Plan.Graph.Targets.{
  targets_of, targets_of-append, targets_of-fresh, Inv, add_node-Inv, add_edge-Inv,
}
use crustydb_labs_cs378_spri.Plan.Logical.{
  LogicalOp, LogicalPlan, add_node, add_edge, moved_root, root_or,
}
use crustydb_labs_cs378_spri.Plan.Tree.{
  OneOp, one_op, PlanTree, over, Stands, StandsIn, Stands-some, embed-Stands,
}
use crustydb_labs_cs378_spri.Plan.Pushdown.{put_over}

-- No edge from a node to itself, which `add_edge` refuses.
abbrev pub Loopless : List Edge → Type 0
Loopless [] = Unit {0}
Loopless (e ∷ es) = (e.source ≢ e.target) × Loopless es

pub Loopless-snoc :
    (es : List Edge) (e : Edge) → Loopless es → e.source ≢ e.target → Loopless (es ++ e ∷ [])
Loopless-snoc [] e l h = (h, tt)
Loopless-snoc (x ∷ es) e (hx, l) h = (hx, Loopless-snoc es e l h)

pub record PlanInv (lp : LogicalPlan) : Type 0 where
  pub graph : Inv lp.dataflow
  pub loopless : Loopless lp.dataflow.edge_list

-- The plan's graph is well formed and spells out the tree from the root.
abbrev pub Represents : LogicalPlan → PlanTree → Type 0
Represents lp t = PlanInv lp × (r : ℕ) × (lp.root ≡ some r) × StandsIn lp r t

-- What an edge from `s` to `t` changes.
pub record Linked (lp lp' : LogicalPlan) (s t : ℕ) : Type 0 where
  pub added : add_edge lp s t ≡ ok lp'
  pub inv : PlanInv lp'
  pub root : lp'.root ≡ moved_root lp.root s t
  pub targets :
      (u : ℕ)
      → targets_of lp'.dataflow.edge_list u
        ≡ (if s == u then t ∷ [] else []) ++ targets_of lp.dataflow.edge_list u
  pub ops : (u : ℕ) → node_data lp'.dataflow u ≡ node_data lp.dataflow u
  pub size : length lp'.dataflow.nodes ≡ length lp.dataflow.nodes

pub add_edge-Linked :
    (lp : LogicalPlan) (s t : ℕ)
    → PlanInv lp
    → s < length lp.dataflow.nodes
    → t < length lp.dataflow.nodes
    → s ≢ t
    → (lp' : LogicalPlan) × Linked lp lp' s t
unfolding add_edge
add_edge-Linked lp s t v hs ht other =
    let (h, o, done, inv, list, ops, size) = add_edge-Inv lp.dataflow s t v.graph hs ht in
    let not_same : (s == t) ≡ false = ground (arith, nat_eq.beq_iff s t) in
    let e : Edge = record { source = s; target = t; next_edge = o } in
    (
      record { dataflow = h; root = moved_root lp.root s t },
      record {
        added = rw (not_same, done);
        inv = record {
          graph = inv;
          loopless =
              subst Loopless (sym list) (Loopless-snoc lp.dataflow.edge_list e v.loopless other);
        };
        root = refl;
        targets = λ u.
            ap (λ es. targets_of es u) list ∙ targets_of-append lp.dataflow.edge_list (e ∷ []) u;
        ops = ops;
        size = size;
      },
    )

module _ (lp : LogicalPlan) (op : LogicalOp) where
  pub add_node-PlanInv : PlanInv lp → PlanInv (add_node lp op).1
  add_node-PlanInv v = record { graph = add_node-Inv lp.dataflow op v.graph; loopless = v.loopless }

pub map_id {ℓ} : {A : Type ℓ} (xs : List A) → map (λ x. x) xs ≡ xs
map_id [] = refl
map_id (x ∷ xs) = ap (λ t. x ∷ t) (map_id xs)

-- An edge from a new node changes no older node.
pub other_targets : (n i t : ℕ) (ts : List ℕ) → i < n → (if n == i then t ∷ [] else []) ++ ts ≡ ts
other_targets n i t ts h = ground (arith, nat_eq.beq_iff n i)

-- With a new operator over the root the plan represents the tree with that operator on top.
pub put_over-Represents :
    (op : OneOp) (lp : LogicalPlan) (t : PlanTree)
    → Represents lp t
    → (lp' : LogicalPlan) × (put_over (one_op op) lp ≡ ok lp') × Represents lp' (over op t)
unfolding put_over Stands
put_over-Represents op lp t (v, r, at_root, stands) =
    let n = length lp.dataflow.nodes in
    let added : LogicalPlan = (add_node lp (one_op op)).1 in
    let (o, at_r) = Stands-some _ _ r t stands in
    let r_lt : r < n = node_data-lt lp.dataflow r at_r in
    let longer =
      length-append lp.dataflow.nodes (record { value = one_op op; outgoing_edge = none } ∷ []) in
    let (lp', linked) =
      add_edge-Linked added n r (add_node-PlanInv lp (one_op op) v) (omega (arith, longer))
        (omega (arith, longer)) (λ e. omega arith) in
    let root_added : added.root ≡ some r = ap (λ o'. root_or o' n) at_root in
    (
      lp',
      ap (λ o'. unwrap o' >>= (λ old_root. add_edge added n old_root)) at_root ∙ linked.added,
      (
        linked.inv,
        n,
        linked.root ∙ ap (λ o'. moved_root o' n r) root_added ∙ rw (beq_refl r),
        (
          linked.ops n ∙ node_data-new lp.dataflow (one_op op),
          r,
          linked.targets n
              ∙ rw (
                beq_refl n,
                targets_of-fresh n n lp.dataflow.edge_list (omega arith) v.graph.bounded,
              ),
          embed-Stands _ _ _ _ (λ i. i)
              (λ i o' h. linked.ops i ∙ node_data-add_node lp.dataflow (one_op op) i h)
              (λ i o' h.
                linked.targets i
                ∙ other_targets n i r _ (node_data-lt lp.dataflow i h)
                ∙ sym (map_id (targets_of lp.dataflow.edge_list i)))
              r t stands,
        ),
      ),
    )
