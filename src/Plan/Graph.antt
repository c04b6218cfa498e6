-- ===== src/Plan/Graph.antt =====
-- The graph of a plan: common/src/crusty_graph.rs. The edges of a node are a linked list through the
-- vector of all edges, of which the node has the head.
pub mod Targets
pub mod Nodes
use crustydb_labs_cs378_spri.Prelude.{
  ℕ, zero, suc, Bool, true, false, List, [], ◌∷◌, ◌++◌, Option, none, some, length, get_elem?, set,
  Outcome, ok, panic, ◌>>=◌, unwrap,
}

pub record Node (T : Type 0) : Type 0 where
  pub value : T
  pub outgoing_edge : Option ℕ

pub record Edge : Type 0 where
  pub source : ℕ
  pub target : ℕ
  pub next_edge : Option ℕ

pub record CrustyGraph (T : Type 0) : Type 0 where
  pub nodes : List (Node T)
  pub edge_list : List Edge

-- `Iterator for Edges`: `next` until the end. A walk out of fuel would be a panic.
unfoldable pub walk : ℕ → List Edge → Option ℕ → Outcome (List ℕ)
walk fuel es none = ok []
walk zero es (some i) = panic
walk (suc fuel) es (some i) = do
  e ← unwrap (get_elem? es i)
  rest ← walk fuel es e.next_edge
  ok (e.target ∷ rest)

abbrev pub is_some {ℓ} : {A : Type ℓ} → Option A → Bool
is_some none = false
is_some (some a) = true

module _ {T : Type 0} where
  abbrev pub new : CrustyGraph T
  new = record { nodes = []; edge_list = [] }

  -- The index of the new node, and the graph with it.
  abbrev pub add_node : CrustyGraph T → T → ℕ × CrustyGraph T
  add_node g v = (
    length g.nodes,
    record g { nodes = g.nodes ++ record { value = v; outgoing_edge = none } ∷ [] },
  )

  abbrev pub node_index_exists : CrustyGraph T → ℕ → Bool
  node_index_exists g i = is_some (get_elem? g.nodes i)

  -- The new edge becomes the head of the list of its source.
  unfoldable pub add_edge : CrustyGraph T → ℕ → ℕ → Outcome (CrustyGraph T)
  add_edge g source target = do
    node ← unwrap (get_elem? g.nodes source)
    existing ← unwrap (get_elem? g.nodes target)
    ok (record {
      nodes = set g.nodes source (record node { outgoing_edge = some (length g.edge_list) });
      edge_list =
          g.edge_list
          ++ record { source = source; target = target; next_edge = node.outgoing_edge } ∷ [];
    })

  -- All of the targets that the iterator over the edges of `source` gives.
  unfoldable pub edges : CrustyGraph T → ℕ → Outcome (List ℕ)
  edges g source = do
    node ← unwrap (get_elem? g.nodes source)
    walk (length g.edge_list) g.edge_list node.outgoing_edge

  abbrev pub value_of : Option (Node T) → Option T
  value_of none = none
  value_of (some n) = some n.value

  abbrev pub node_data : CrustyGraph T → ℕ → Option T
  node_data g i = value_of (get_elem? g.nodes i)

  abbrev pub node_count : CrustyGraph T → ℕ
  node_count g = length g.nodes

  abbrev pub edge_count : CrustyGraph T → ℕ
  edge_count g = length g.edge_list
