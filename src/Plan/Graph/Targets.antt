-- ===== src/Plan/Graph/Targets.antt =====
-- What the edges of a node are after every operation on the graph.
use crustydb_labs_cs378_spri.Prelude.{
  ℕ, zero, suc, ◌+◌, ◌<◌, ◌≤◌, ◌≡◌, ◌≢◌, refl, sym, ap, ◌∙◌, subst, List, [], ◌∷◌, ◌++◌, Option,
  none, some, if◌then◌else◌, ◌==◌, nat_eq, beq_refl, inl, inr, get_elem?-snoc, length,
  length-append, length-set, get_elem?, get_elem?-left, get_elem?-append, get_elem?-some,
  get_elem?-lt, get_elem?-set_self, get_elem?-set_ne, set, ok, arith,
}
use native.Mathlib.Decide.{ℕ_discrete}
use crustydb_labs_cs378_spri.Plan.Graph.{
  Node, Edge, CrustyGraph, walk, new, add_node, add_edge, edges, node_data, value_of,
}

-- The list of edges that begins at `o` leads to the targets, every next edge older than the one before.
abbrev pub Walks : List Edge → ℕ → Option ℕ → List ℕ → Type 0
Walks es n o [] = o ≡ none
Walks es n o (t ∷ ts) =
    (i : ℕ) × (e : Edge) × (o ≡ some i)
    × (i < n)
    × (get_elem? es i ≡ some e)
    × (e.target ≡ t)
    × Walks es i e.next_edge ts

walk-Walks :
    (es : List Edge) (fuel n : ℕ) (o : Option ℕ) (ts : List ℕ)
    → n ≤ fuel
    → Walks es n o ts
    → walk fuel es o ≡ ok ts
unfolding walk
walk-Walks es fuel n o [] h e = rw e
walk-Walks es zero n o (t ∷ ts) h (i, e, at, lt', here, to, rest) = absurd (omega arith)
walk-Walks es (suc fuel) n o (t ∷ ts) h (i, e, at, lt', here, to, rest) =
    rw (at, here, walk-Walks es fuel i e.next_edge ts (omega arith) rest, to)

Walks-append :
    (es more : List Edge) (n m : ℕ) (o : Option ℕ) (ts : List ℕ)
    → n ≤ m
    → Walks es n o ts
    → Walks (es ++ more) m o ts
Walks-append es more n m o [] h w = w
Walks-append es more n m o (t ∷ ts) h (i, e, at, lt', here, to, rest) = (
  i,
  e,
  at,
  omega arith,
  get_elem?-left es more i here,
  to,
  Walks-append es more i i e.next_edge ts (omega arith) rest,
)

-- The targets of a node, the edge that was added last first: what the iterator is to give.
abbrev pub targets_of : List Edge → ℕ → List ℕ
targets_of [] s = []
targets_of (e ∷ es) s = targets_of es s ++ (if e.source == s then e.target ∷ [] else [])

pub append_assoc {ℓ} : {A : Type ℓ} (xs ys zs : List A) → (xs ++ ys) ++ zs ≡ xs ++ (ys ++ zs)
append_assoc [] ys zs = refl
append_assoc (x ∷ xs) ys zs = ap (λ t. x ∷ t) (append_assoc xs ys zs)

pub append_nil {ℓ} : {A : Type ℓ} (xs : List A) → xs ++ [] ≡ xs
append_nil [] = refl
append_nil (x ∷ xs) = ap (λ t. x ∷ t) (append_nil xs)

pub targets_of-append :
    (es more : List Edge) (s : ℕ) → targets_of (es ++ more) s ≡ targets_of more s ++ targets_of es s
targets_of-append [] more s = sym (append_nil (targets_of more s))
targets_of-append (e ∷ es) more s = rw (targets_of-append es more s) (
    append_assoc (targets_of more s) (targets_of es s)
      (if e.source == s then e.target ∷ [] else []))

-- Every edge joins nodes of the graph.
abbrev pub Bounded : ℕ → List Edge → Type 0
Bounded n [] = Unit {0}
Bounded n (e ∷ es) = (e.source < n) × (e.target < n) × Bounded n es

Bounded-append :
    (n m : ℕ) (es more : List Edge) → n ≤ m → Bounded n es → Bounded m more → Bounded m (es ++ more)
Bounded-append n m [] more h b c = c
Bounded-append n m (e ∷ es) more h (s, t, b) c =
    (omega arith, omega arith, Bounded-append n m es more h b c)

-- A node that no edge leaves yet.
pub targets_of-fresh : (n u : ℕ) (es : List Edge) → n ≤ u → Bounded n es → targets_of es u ≡ []
targets_of-fresh n u [] h b = refl
targets_of-fresh n u (e ∷ es) h (s, t, b) =
    rw (targets_of-fresh n u es h b) (ground (arith, nat_eq.beq_iff e.source u))

module _ {T : Type 0} where
  -- The lists of edges are right: the iterator over a node gives its targets, the newest first.
  pub record Inv (g : CrustyGraph T) : Type 0 where
    pub bounded : Bounded (length g.nodes) g.edge_list
    pub linked :
        (s : ℕ) (n : Node T)
        → get_elem? g.nodes s ≡ some n
        → Walks g.edge_list (length g.edge_list) n.outgoing_edge (targets_of g.edge_list s)

  -- In a graph that satisfies the invariant the iterator over a node ends, without a panic, and gives
  -- the targets of its edges in the reverse order in which they were added.
  pub edges-targets_of :
      (g : CrustyGraph T) (s : ℕ)
      → Inv g
      → s < length g.nodes
      → edges g s ≡ ok (targets_of g.edge_list s)
  unfolding edges
  edges-targets_of g s v h =
      let (n, at) = get_elem?-some g.nodes s h in
      rw (at) (
        walk-Walks g.edge_list (length g.edge_list) (length g.edge_list) n.outgoing_edge _
          (omega arith) (v.linked s n at))

  pub new-Inv : Inv (new {T = T})
  new-Inv = record { bounded = tt; linked = λ s n at. cc }

  pub add_node-Inv : (g : CrustyGraph T) (x : T) → Inv g → Inv (add_node g x).1
  add_node-Inv g x v =
      let node : Node T = record { value = x; outgoing_edge = none } in
      let longer = length-append g.nodes (node ∷ []) in
      record {
        bounded =
            subst (λ es. Bounded (length (g.nodes ++ node ∷ [])) es) (append_nil g.edge_list)
              (Bounded-append (length g.nodes) _ g.edge_list [] (omega (arith, longer)) v.bounded
                tt);
        linked = λ s n at. elim (get_elem?-snoc g.nodes node s at) [
          | inl before ↦ v.linked s n before
          | inr (here, is_new) ↦
              rw
                (
                  here,
                  targets_of-fresh (length g.nodes) (length g.nodes) g.edge_list (omega arith)
                      v.bounded,
                )
                (ap (λ m. m.outgoing_edge) is_new)
        ];
      }

  value_of-set :
      (ns : List (Node T)) (s : ℕ) (n n' : Node T)
      → get_elem? ns s ≡ some n
      → n'.value ≡ n.value
      → (u : ℕ) → value_of (get_elem? (set ns s n') u) ≡ value_of (get_elem? ns u)
  value_of-set [] s n n' at same u = cc
  value_of-set (x ∷ ns) zero n n' at same zero = ground (arith, at, same)
  value_of-set (x ∷ ns) zero n n' at same (suc u) = refl
  value_of-set (x ∷ ns) (suc s) n n' at same zero = refl
  value_of-set (x ∷ ns) (suc s) n n' at same (suc u) = value_of-set ns s n n' at same u

  module _ (g : CrustyGraph T) (n : Node T) (s t : ℕ) (v : Inv g)
      (at : get_elem? g.nodes s ≡ some n) where
    abbrev moved : Node T
    moved = record n { outgoing_edge = some (length g.edge_list) }

    abbrev added : Edge
    added = record { source = s; target = t; next_edge = n.outgoing_edge }

    -- What the list of `u` is to be after the edge was added.
    abbrev LinkedAfter : ℕ → Node T → Type 0
    LinkedAfter u m =
        Walks (g.edge_list ++ added ∷ []) (length g.edge_list + 1) m.outgoing_edge
          (targets_of (added ∷ []) u ++ targets_of g.edge_list u)

    linked_source : (m : Node T) → get_elem? (set g.nodes s moved) s ≡ some m → LinkedAfter s m
    linked_source m at_s =
        let is_moved : some moved ≡ some m =
          sym (get_elem?-set_self g.nodes s moved (get_elem?-lt g.nodes s at)) ∙ at_s in
        let head : some (length g.edge_list) ≡ m.outgoing_edge = ground (arith, is_moved) in
        let first : t ∷ [] ≡ targets_of (added ∷ []) s = rw (beq_refl s) in
        subst
          (λ ts.
            Walks (g.edge_list ++ added ∷ []) (length g.edge_list + 1) m.outgoing_edge
              (ts ++ targets_of g.edge_list s))
          first
          (
            length g.edge_list,
            added,
            sym head,
            omega arith,
            get_elem?-append g.edge_list added [],
            refl,
            Walks-append g.edge_list (added ∷ []) (length g.edge_list) (length g.edge_list)
                n.outgoing_edge (targets_of g.edge_list s) (omega arith) (v.linked s n at),
          )

    linked_other :
        (u : ℕ) (m : Node T) → s ≢ u → get_elem? (set g.nodes s moved) u ≡ some m → LinkedAfter u m
    linked_other u m other at_u =
        let none_new : [] ≡ targets_of (added ∷ []) u = ground (arith, nat_eq.beq_iff s u) in
        subst
          (λ ts.
            Walks (g.edge_list ++ added ∷ []) (length g.edge_list + 1) m.outgoing_edge
              (ts ++ targets_of g.edge_list u))
          none_new
          (Walks-append g.edge_list (added ∷ []) (length g.edge_list) (length g.edge_list + 1)
            m.outgoing_edge (targets_of g.edge_list u) (omega arith)
            (v.linked u m (sym (get_elem?-set_ne g.nodes moved other) ∙ at_u)))

    add_edge-linked :
        (u : ℕ) (m : Node T)
        → get_elem? (set g.nodes s moved) u ≡ some m
        → Walks
            (g.edge_list ++ added ∷ [])
            (length g.edge_list + 1)
            m.outgoing_edge
            (targets_of (g.edge_list ++ added ∷ []) u)
    add_edge-linked u m at_u =
        let linked : LinkedAfter u m = elim (ℕ_discrete s u) [
          | yes same ↦
              subst (λ w. get_elem? (set g.nodes s moved) w ≡ some m → LinkedAfter w m) same
                (linked_source m) at_u
          | no other ↦ linked_other u m other at_u
        ] in
        subst (λ ts. Walks (g.edge_list ++ added ∷ []) (length g.edge_list + 1) m.outgoing_edge ts)
          (sym (targets_of-append g.edge_list (added ∷ []) u)) linked

  -- In a graph that satisfies the invariant an edge between two of its nodes is added without a panic,
  -- and the invariant holds again.
  pub add_edge-Inv :
      (g : CrustyGraph T) (s t : ℕ)
      → Inv g
      → s < length g.nodes
      → t < length g.nodes
      → (h : CrustyGraph T) × (o : Option ℕ) × (add_edge g s t ≡ ok h)
        × Inv h
        × (h.edge_list ≡ g.edge_list ++ record { source = s; target = t; next_edge = o } ∷ [])
        × ((u : ℕ) → node_data h u ≡ node_data g u)
        × (length h.nodes ≡ length g.nodes)
  unfolding add_edge
  add_edge-Inv g s t v hs ht =
      let (n, at) = get_elem?-some g.nodes s hs in
      let (x, at_t) = get_elem?-some g.nodes t ht in
      let n' : Node T = record n { outgoing_edge = some (length g.edge_list) } in
      let e : Edge = record { source = s; target = t; next_edge = n.outgoing_edge } in
      let longer = length-append g.edge_list (e ∷ []) in
      let size = length-set g.nodes s n' in
      (
        record { nodes = set g.nodes s n'; edge_list = g.edge_list ++ e ∷ [] },
        n.outgoing_edge,
        rw (at, at_t),
        record {
          bounded =
              Bounded-append (length g.nodes) _ g.edge_list (e ∷ []) (omega (arith, size)) v.bounded
                (omega (arith, size), omega (arith, size), tt);
          linked = λ u m at_u. rw longer (add_edge-linked g n s t v at u m at_u);
        },
        refl,
        value_of-set g.nodes s n n' at refl,
        size,
      )
