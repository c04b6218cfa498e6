-- ===== src/Plan/Tree/Copy.antt =====
-- The two loops of `LogicalPlan::merge` of common/src/logical_plan/mod.rs that copy the other plan.
use crustydb_labs_cs378_spri.Prelude.{
  ℕ, suc, ◌+◌, ◌<◌, ◌≡◌, ◌≢◌, refl, sym, ap, ◌∙◌, subst, List, [], ◌∷◌, ◌++◌, Option, none, some,
  map, ◌==◌, nat_eq, update, if◌then◌else◌, length, length-append, get_elem?, ok, arith, zero,
}
use crustydb_labs_cs378_spri.Plan.Graph.{Edge, Node, node_data, value_of}
use crustydb_labs_cs378_spri.Plan.Graph.Nodes.{node_data-add_node, node_data-new}
use crustydb_labs_cs378_spri.Plan.Graph.Targets.{targets_of, Bounded, append_assoc}
use crustydb_labs_cs378_spri.Plan.Logical.{
  LogicalOp, LogicalPlan, add_node, moved_root, root_or, copy_nodes, copy_edges,
}
use crustydb_labs_cs378_spri.Plan.Tree.Build.{PlanInv, Loopless, add_edge-Linked, add_node-PlanInv}

-- What the loop over the nodes of the other plan comes to: node `j` is copied to `n + j`.
pub record CopiedNodes (lp lp' : LogicalPlan) (node_map : ℕ → Option ℕ) (n i r : ℕ)
    (ns : List (Node LogicalOp)) : Type 0 where
  pub inv : PlanInv lp'
  pub root : lp'.root ≡ some r
  pub same_edges : lp'.dataflow.edge_list ≡ lp.dataflow.edge_list
  pub size : length lp'.dataflow.nodes ≡ n + (i + length ns)
  pub known : (j : ℕ) → j < i + length ns → node_map j ≡ some (n + j)
  pub old :
      (j : ℕ) (o : LogicalOp) → node_data lp.dataflow j ≡ some o → node_data lp'.dataflow j ≡ some o
  pub copied :
      (j : ℕ) (o : LogicalOp)
      → value_of (get_elem? ns j) ≡ some o
      → node_data lp'.dataflow (n + (i + j)) ≡ some o

copied_cons :
    (lp' : LogicalPlan) (n i : ℕ) (x : Node LogicalOp) (ns : List (Node LogicalOp))
    → node_data lp'.dataflow (n + i) ≡ some x.value
    → ((k : ℕ) (o : LogicalOp)
        → value_of (get_elem? ns k) ≡ some o
        → node_data lp'.dataflow (n + (suc i + k)) ≡ some o)
    → (j : ℕ) (o : LogicalOp) → value_of (get_elem? (x ∷ ns) j) ≡ some o
    → node_data lp'.dataflow (n + (i + j)) ≡ some o
copied_cons lp' n i x ns here later zero o h =
    subst (λ k. node_data lp'.dataflow k ≡ some o) (omega arith) (here ∙ h)
copied_cons lp' n i x ns here later (suc k) o h =
    subst (λ u. node_data lp'.dataflow u ≡ some o) (omega arith) (later k o h)

pub copy_nodes-CopiedNodes :
    (lp : LogicalPlan) (m : ℕ → Option ℕ) (n i r : ℕ) (ns : List (Node LogicalOp))
    → PlanInv lp
    → lp.root ≡ some r
    → length lp.dataflow.nodes ≡ n + i
    → ((j : ℕ) → j < i → m j ≡ some (n + j))
    → CopiedNodes lp (copy_nodes lp m i ns).0 (copy_nodes lp m i ns).1 n i r ns
unfolding copy_nodes
copy_nodes-CopiedNodes lp m n i r [] v at size known = record {
  inv = v;
  root = at;
  same_edges = refl;
  size = omega (arith, size);
  known = λ j h. known j (omega (arith, h));
  old = λ j o h. h;
  copied = λ j o h. cc;
}
copy_nodes-CopiedNodes lp m n i r (x ∷ ns) v at size known =
    let added = add_node lp x.value in
    let more =
      length-append lp.dataflow.nodes (record { value = x.value; outgoing_edge = none } ∷ []) in
    let rest =
      copy_nodes-CopiedNodes added.1 (update m i added.0) n (suc i) r ns
        (add_node-PlanInv lp x.value v) (ap (λ o. root_or o added.0) at) (omega (arith, more, size))
        (λ j h. ground (arith, known j, nat_eq.beq_iff i j, size)) in
    record {
      inv = rest.inv;
      root = rest.root;
      same_edges = rest.same_edges;
      size = omega (arith, rest.size);
      known = λ j h. rest.known j (omega (arith, h));
      old = λ j o h. rest.old j o (node_data-add_node lp.dataflow x.value j h);
      copied =
          copied_cons (copy_nodes added.1 (update m i added.0) (suc i) ns).0 n i x ns
            (subst
              (λ u.
                node_data (copy_nodes added.1 (update m i added.0) (suc i) ns).0.dataflow u
                ≡ some x.value)
              size (rest.old added.0 x.value (node_data-new lp.dataflow x.value)))
            rest.copied;
    }

map-append {ℓ} :
    {A B : Type ℓ} (f : A → B) (xs ys : List A) → map f (xs ++ ys) ≡ map f xs ++ map f ys
map-append f [] ys = refl
map-append f (x ∷ xs) ys = ap (λ t. f x ∷ t) (map-append f xs ys)

-- What the loop over its edges comes to.
pub record CopiedEdges (lp lp' : LogicalPlan) (m : ℕ → Option ℕ) (n r : ℕ) (es : List Edge)
    : Type 0 where
  pub done : copy_edges lp m es ≡ ok lp'
  pub inv : PlanInv lp'
  pub root : lp'.root ≡ some r
  pub size : length lp'.dataflow.nodes ≡ length lp.dataflow.nodes
  pub ops : (u : ℕ) → node_data lp'.dataflow u ≡ node_data lp.dataflow u
  pub old :
      (u : ℕ) → u < n → targets_of lp'.dataflow.edge_list u ≡ targets_of lp.dataflow.edge_list u
  pub copied :
      (s : ℕ)
      → targets_of lp'.dataflow.edge_list (n + s)
        ≡ map (λ t. n + t) (targets_of es s) ++ targets_of lp.dataflow.edge_list (n + s)

-- The targets of one edge, moved by `n`.
shifted_targets :
    (n a b s : ℕ)
    → (if n + a == n + s then (n + b) ∷ [] else [])
      ≡ map (λ t. n + t) (if a == s then b ∷ [] else [])
shifted_targets n a b s = ground (arith, nat_eq.beq_iff (n + a) (n + s), nat_eq.beq_iff a s)

pub copy_edges-CopiedEdges :
    (lp : LogicalPlan) (m : ℕ → Option ℕ) (n k r : ℕ) (es : List Edge)
    → PlanInv lp
    → lp.root ≡ some r
    → r < n
    → length lp.dataflow.nodes ≡ n + k
    → ((j : ℕ) → j < k → m j ≡ some (n + j))
    → Bounded k es
    → Loopless es
    → (lp' : LogicalPlan) × CopiedEdges lp lp' m n r es
unfolding copy_edges
copy_edges-CopiedEdges lp m n k r [] v at r_lt size known b l = (
  lp,
  record {
    done = refl;
    inv = v;
    root = at;
    size = refl;
    ops = λ u. refl;
    old = λ u h. refl;
    copied = λ s. refl;
  },
)
copy_edges-CopiedEdges lp m n k r (e ∷ es) v at r_lt size known (hs, ht, b) (other, l) =
    let (lp1, linked) =
      add_edge-Linked lp (n + e.source) (n + e.target) v (omega (arith, size)) (omega (arith, size))
        (λ same. other (omega (arith, same))) in
    let root1 : lp1.root ≡ some r =
      linked.root
      ∙ ap (λ o. moved_root o (n + e.source) (n + e.target)) at
      ∙ ground (arith, nat_eq.beq_iff r (n + e.target)) in
    let (lp', rest) =
      copy_edges-CopiedEdges lp1 m n k r es linked.inv root1 r_lt (omega (arith, size, linked.size))
        known b l in
    (
      lp',
      record {
        done = rw (known e.source hs, known e.target ht, linked.added) rest.done;
        inv = rest.inv;
        root = rest.root;
        size = rest.size ∙ linked.size;
        ops = λ u. rest.ops u ∙ linked.ops u;
        old = λ u h.
            rest.old u h
            ∙ linked.targets u
            ∙ older (n + e.source) u (n + e.target) _ (λ same. omega (arith, same));
        copied = λ s.
            rest.copied s
            ∙ ap (λ ts. map (λ t. n + t) (targets_of es s) ++ ts)
                (linked.targets (n + s)
                  ∙ ap (λ ts. ts ++ targets_of lp.dataflow.edge_list (n + s))
                      (shifted_targets n e.source e.target s))
            ∙ sym (append_assoc (map (λ t. n + t) (targets_of es s)) _ _)
            ∙ ap (λ ts. ts ++ targets_of lp.dataflow.edge_list (n + s))
                (sym (
                  map-append (λ t. n + t) (targets_of es s)
                    (if e.source == s then e.target ∷ [] else [])));
      },
    )
  where
    older : (a u t : ℕ) (ts : List ℕ) → a ≢ u → (if a == u then t ∷ [] else []) ++ ts ≡ ts
    older a u t ts ne = ground (arith, nat_eq.beq_iff a u)

pub copied_at :
    {lp lp' : LogicalPlan} {m : ℕ → Option ℕ} {n r : ℕ} {ns : List (Node LogicalOp)}
    → CopiedNodes lp lp' m n 0 r ns
    → (j : ℕ) (o : LogicalOp) → value_of (get_elem? ns j) ≡ some o
    → node_data lp'.dataflow (n + j) ≡ some o
copied_at {lp' = lp'} {n = n} cn j o h =
    subst (λ u. node_data lp'.dataflow u ≡ some o) (omega arith) (cn.copied j o h)
