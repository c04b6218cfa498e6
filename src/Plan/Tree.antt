-- ===== src/Plan/Tree.antt =====
-- The abstract view of a plan: the tree of its operators, which forgets how the graph stores it. The
-- operators that the optimizer does not know (update and the two kinds of deltas) have no tree.
pub mod Build
pub mod Copy
pub mod Merge
use crustydb_labs_cs378_spri.Prelude.{
  ℕ, suc, ◌+◌, max, ◌≡◌, refl, sym, ap, ◌∙◌, List, [], ◌∷◌, Option, none, some, map,
}
use crustydb_labs_cs378_spri.Plan.Graph.{node_data}
use crustydb_labs_cs378_spri.Plan.Graph.Targets.{targets_of}
use crustydb_labs_cs378_spri.Plan.Logical.{
  ScanNode, ProjectNode, FilterNode, AggregateNode, SortNode, JoinNode, CrossProductNode, LogicalOp,
  scan, project, filter, aggregate, sort, join, cross_product, LogicalPlan,
}

pub data OneOp : Type 0 where
  projecting : ProjectNode → OneOp
  filtering : FilterNode → OneOp
  aggregating : AggregateNode → OneOp
  sorting : SortNode → OneOp

pub data TwoOp : Type 0 where
  joining : JoinNode → TwoOp
  crossing : CrossProductNode → TwoOp

pub data PlanTree : Type 0 where
  leaf : ScanNode → PlanTree
  over : OneOp → PlanTree → PlanTree
  both : TwoOp → PlanTree → PlanTree → PlanTree

abbrev pub one_op : OneOp → LogicalOp
one_op (projecting p) = project p
one_op (filtering f) = filter f
one_op (aggregating a) = aggregate a
one_op (sorting s) = sort s

abbrev pub two_op : TwoOp → LogicalOp
two_op (joining j) = join j
two_op (crossing c) = cross_product c

abbrev pub height : PlanTree → ℕ
height (leaf s) = 1
height (over op t) = suc (height t)
height (both op l r) = suc (max (height l) (height r))

-- The operators and targets of a graph spell the tree out at an index. The left child is the target
-- that the iterator over the edges gives first.
unfoldable pub Stands : (ℕ → Option LogicalOp) → (ℕ → List ℕ) → ℕ → PlanTree → Type 0
Stands ops targets i (leaf s) = (ops i ≡ some (scan s)) × (targets i ≡ [])
Stands ops targets i (over op t) =
    (ops i ≡ some (one_op op)) × (c : ℕ) × (targets i ≡ c ∷ []) × Stands ops targets c t
Stands ops targets i (both op l r) =
    (ops i ≡ some (two_op op))
    × (a : ℕ) × (b : ℕ) × (targets i ≡ a ∷ b ∷ [])
    × Stands ops targets a l
    × Stands ops targets b r

abbrev pub StandsIn : LogicalPlan → ℕ → PlanTree → Type 0
StandsIn lp i t =
    Stands (λ j. node_data lp.dataflow j) (λ j. targets_of lp.dataflow.edge_list j) i t

-- A graph embedded in another one spells out the same trees there.
module _ (ops ops' : ℕ → Option LogicalOp) (targets targets' : ℕ → List ℕ) (f : ℕ → ℕ)
    (same_op : (i : ℕ) (op : LogicalOp) → ops i ≡ some op → ops' (f i) ≡ some op)
    (same_targets : (i : ℕ) (op : LogicalOp)
      → ops i ≡ some op
      → targets' (f i) ≡ map f (targets i)) where
  pub embed-Stands : (i : ℕ) (t : PlanTree) → Stands ops targets i t → Stands ops' targets' (f i) t
  unfolding Stands
  embed-Stands i (leaf s) (here, at) =
      (same_op i _ here, same_targets i _ here ∙ ap (λ ts. map f ts) at)
  embed-Stands i (over op t) (here, c, at, below) = (
    same_op i _ here,
    f c,
    same_targets i _ here ∙ ap (λ ts. map f ts) at,
    embed-Stands c t below,
  )
  embed-Stands i (both op l r) (here, a, b, at, left, right) = (
    same_op i _ here,
    f a,
    f b,
    same_targets i _ here ∙ ap (λ ts. map f ts) at,
    embed-Stands a l left,
    embed-Stands b r right,
  )

-- The root of a tree is a node of the graph.
pub Stands-some :
    (ops : ℕ → Option LogicalOp) (targets : ℕ → List ℕ) (i : ℕ) (t : PlanTree)
    → Stands ops targets i t
    → (op : LogicalOp) × (ops i ≡ some op)
unfolding Stands
Stands-some ops targets i (leaf s) (here, at) = (scan s, here)
Stands-some ops targets i (over op t) (here, c, at, below) = (one_op op, here)
Stands-some ops targets i (both op l r) (here, a, b, at, left, right) = (two_op op, here)
