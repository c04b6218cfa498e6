-- ===== src/Plan/Graph/Nodes.antt =====
-- The data of the nodes after a node was added.
use crustydb_labs_cs378_spri.Prelude.{
  ℕ, ◌<◌, ◌≡◌, sym, ap, ◌∙◌, [], some, length, get_elem?, get_elem?-left, get_elem?-append,
  get_elem?-lt, Option-cases, inl, inr,
}
use crustydb_labs_cs378_spri.Plan.Graph.{CrustyGraph, add_node, node_data, value_of}

module _ {T : Type 0} (g : CrustyGraph T) where
  pub node_data-lt : (i : ℕ) {x : T} → node_data g i ≡ some x → i < length g.nodes
  node_data-lt i h = elim (Option-cases (get_elem? g.nodes i)) [
    | inl no_node ↦ cc
    | inr (n, at) ↦ get_elem?-lt g.nodes i at
  ]

  pub node_data-add_node :
      (v : T) (i : ℕ) {x : T} → node_data g i ≡ some x → node_data (add_node g v).1 i ≡ some x
  node_data-add_node v i h = elim (Option-cases (get_elem? g.nodes i)) [
    | inl no_node ↦ cc
    | inr (n, at) ↦ rw (get_elem?-left g.nodes _ i at) (sym (ap value_of at) ∙ h)
  ]

  pub node_data-new : (v : T) → node_data (add_node g v).1 (length g.nodes) ≡ some v
  node_data-new v = ap value_of (get_elem?-append g.nodes _ [])
