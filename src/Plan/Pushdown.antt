-- ===== src/Plan/Pushdown.antt =====
-- The pushdown of predicates: optimizer/src/pushdown_predicate.rs, with `extract_columns` of
-- optimizer/src/optimizer.rs. A `BTreeSet` of columns is only read by membership, and is the list of what
-- was inserted. The catalog is the function from a container to the names of its table's columns. The
-- recursion over the graph is on fuel; a call out of fuel would be a panic.
pub mod Spec
pub mod Columns
pub mod Place
pub mod Wanted
pub mod Settled
pub mod Reached
pub mod Refine
pub mod Truth
pub mod Scope
pub mod Sides
pub mod Scanned
pub mod Joined
pub mod Rows
use crustydb_labs_cs378_spri.Prelude.{
  ℕ, zero, suc, Bool, true, false, List, [], ◌∷◌, ◌++◌, Option, none, some, String, string_eq,
  contains, Outcome, ok, panic, ◌>>=◌, unwrap,
}
use crustydb_labs_cs378_spri.Expr.Field.{eq, and}
use crustydb_labs_cs378_spri.Expr.Ast.{AstExpr, literal, ident, alias, math, boolean, agg, col_idx}
use crustydb_labs_cs378_spri.Plan.Logical.{
  LogicalOp, scan, project, filter, aggregate, join, cross_product, sort, read_deltas, write_deltas,
  update_op, LogicalPlan, edges, get_operator, add_node, add_edge, merge,
}
use crustydb_labs_cs378_spri.Plan.Logical

unfoldable pub extract_columns : AstExpr → List String → Outcome (List String)
extract_columns (literal f) accum = ok accum
extract_columns (ident idx) accum = ok (accum ++ idx ∷ [])
extract_columns (alias n e) accum = extract_columns e accum
extract_columns (math op l r) accum = do accum' ← extract_columns l accum; extract_columns r accum'
extract_columns (boolean op l r) accum = do
  accum' ← extract_columns l accum
  extract_columns r accum'
extract_columns (agg op e) accum = extract_columns e accum
extract_columns (col_idx i) accum = panic

unfoldable pub extract_columns_vec : List AstExpr → List String → Outcome (List String)
extract_columns_vec [] accum = ok accum
extract_columns_vec (e ∷ es) accum = do
  accum' ← extract_columns e accum
  extract_columns_vec es accum'

-- `reduce` with `And`, from the left.
unfoldable pub reduce_and : AstExpr → List AstExpr → AstExpr
reduce_and a [] = a
reduce_and a (b ∷ rest) = reduce_and (boolean and a b) rest

unfoldable pub combine_predicates_with_and : List AstExpr → Option AstExpr
combine_predicates_with_and [] = none
combine_predicates_with_and (a ∷ rest) = some (reduce_and a rest)

unfoldable pub separate_predicates_by_and : AstExpr → List AstExpr → List AstExpr
separate_predicates_by_and (boolean and left right) separated =
    separate_predicates_by_and right (separate_predicates_by_and left separated)
separate_predicates_by_and p separated = separated ++ p ∷ []

-- The filter of a node, if it has one, separated after the predicates.
abbrev pub separate_filter : Option AstExpr → List AstExpr → List AstExpr
separate_filter none predicates = predicates
separate_filter (some p) predicates = separate_predicates_by_and p predicates

unfoldable pub is_subset : List String → List String → Bool
is_subset [] ys = true
is_subset (x ∷ xs) ys = elim (contains ys x) [ true ↦ is_subset xs ys | false ↦ false ]

-- The four categories of the predicates over a join.
pub record Split : Type 0 where
  pub left_predicates : List AstExpr
  pub right_predicates : List AstExpr
  pub new_eqs : List (AstExpr × AstExpr)
  pub remaining_predicates : List AstExpr

abbrev pub equality_sides : AstExpr → Option (AstExpr × AstExpr)
equality_sides (boolean eq left right) = some (left, right)
equality_sides _ = none

abbrev pub go_left : AstExpr → Split → Split
go_left p s = record s { left_predicates = s.left_predicates ++ p ∷ [] }

abbrev pub go_right : AstExpr → Split → Split
go_right p s = record s { right_predicates = s.right_predicates ++ p ∷ [] }

abbrev pub stay : AstExpr → Split → Split
stay p s = record s { remaining_predicates = s.remaining_predicates ++ p ∷ [] }

abbrev pub add_eq : AstExpr → AstExpr → Split → Split
add_eq a b s = record s { new_eqs = s.new_eqs ++ (a, b) ∷ [] }

-- The operator over the two children, from the categories.
abbrev pub joined : Split → LogicalOp
joined s =
    join (record { eqs = s.new_eqs; filter = combine_predicates_with_and s.remaining_predicates })

abbrev pub joined_or_crossed : Split → LogicalOp
joined_or_crossed s = elim (s.new_eqs) [
  | [] ↦ cross_product (record { filter = combine_predicates_with_and s.remaining_predicates })
  | _ ∷ _ ↦ joined s
]

-- The loop over the children that extends the columns by those of each child.
unfoldable pub extend_each :
    (ℕ → Outcome (List String)) → List ℕ → List String → Outcome (List String)
extend_each columns_at [] columns = ok columns
extend_each columns_at (child_index ∷ rest) columns = do
  more ← columns_at child_index
  extend_each columns_at rest (columns ++ more)

abbrev pub two_children : List ℕ → Outcome (ℕ × ℕ)
two_children (l ∷ r ∷ []) = ok (l, r)
two_children _ = panic

abbrev pub first_child : List ℕ → Outcome ℕ
first_child [] = panic
first_child (child ∷ rest) = ok child

-- The new root over a plan that was rebuilt: `add_node`, then an edge to the old root.
unfoldable pub put_over : LogicalOp → LogicalPlan → Outcome LogicalPlan
put_over op new_lp = do
  old_root ← unwrap new_lp.root
  let added = add_node new_lp op
  add_edge added.1 added.0 old_root

module _ (catalog : ℕ → Option (List String)) (lp : LogicalPlan) where
  unfoldable pub columns_under : (ℕ → Outcome (List String)) → ℕ → Outcome (List String)
  columns_under columns_at index = do children ← edges lp index; extend_each columns_at children []

  unfoldable pub scanned_columns : ℕ → Option (List AstExpr) → Outcome (List String)
  scanned_columns c (some projection) = extract_columns_vec projection []
  scanned_columns c none = unwrap (catalog c)

  unfoldable pub columns_of_op : (ℕ → Outcome (List String)) → ℕ → LogicalOp → Outcome (List String)
  columns_of_op columns_at index (scan s) = scanned_columns s.container_id s.projection
  columns_of_op columns_at index (project p) = extract_columns_vec p.identifiers []
  columns_of_op columns_at index (join j) = columns_under columns_at index
  columns_of_op columns_at index (aggregate a) = do
    columns ← extract_columns_vec a.fields []
    extract_columns_vec a.group_by columns
  columns_of_op columns_at index (filter f) = columns_under columns_at index
  columns_of_op columns_at index (cross_product c) = columns_under columns_at index
  columns_of_op columns_at index (sort s) = columns_under columns_at index
  columns_of_op columns_at index (read_deltas d) = panic
  columns_of_op columns_at index (write_deltas d) = panic
  columns_of_op columns_at index (update_op u) = panic

  unfoldable pub extract_columns_from_plan : ℕ → ℕ → Outcome (List String)
  extract_columns_from_plan zero index = panic
  extract_columns_from_plan (suc fuel) index = elim (get_operator lp index) [
    | some op ↦ columns_of_op (λ i. extract_columns_from_plan fuel i) index op
    | none ↦ ok []
  ]

  unfoldable pub can_be_pushed_down : ℕ → AstExpr → ℕ → Outcome Bool
  can_be_pushed_down fuel predicate child_index = do
    columns ← extract_columns predicate []
    child_columns ← extract_columns_from_plan fuel child_index
    ok (is_subset columns child_columns)

  -- `&&` asks for the second side only if the first one can be pushed.
  unfoldable pub both_pushed : ℕ → AstExpr → ℕ → AstExpr → ℕ → Outcome Bool
  both_pushed fuel a a_child b b_child = do
    first ← can_be_pushed_down fuel a a_child
    elim first [ true ↦ can_be_pushed_down fuel b b_child | false ↦ ok false ]

  -- What becomes of a predicate that neither child takes.
  unfoldable pub place_sides :
      ℕ → ℕ → ℕ → Option (AstExpr × AstExpr) → AstExpr → Split → Outcome Split
  place_sides fuel left_child right_child none predicate s = ok (stay predicate s)
  place_sides fuel left_child right_child (some (left, right)) predicate s = do
    in_order ← both_pushed fuel left left_child right right_child
    elim in_order [
      | true ↦ ok (add_eq left right s)
      | false ↦ do
        swapped ← both_pushed fuel left right_child right left_child
        elim swapped [ true ↦ ok (add_eq right left s) | false ↦ ok (stay predicate s) ]
    ]

  -- The body of the loop over the predicates of a join.
  unfoldable pub place : ℕ → ℕ → ℕ → AstExpr → Split → Outcome Split
  place fuel left_child right_child predicate s = do
    to_left ← can_be_pushed_down fuel predicate left_child
    elim to_left [
      | true ↦ ok (go_left predicate s)
      | false ↦ do
        to_right ← can_be_pushed_down fuel predicate right_child
        elim to_right [
          | true ↦ ok (go_right predicate s)
          | false ↦ place_sides fuel left_child right_child (equality_sides predicate) predicate s
        ]
    ]

  unfoldable pub place_all : ℕ → ℕ → ℕ → List AstExpr → Split → Outcome Split
  place_all fuel left_child right_child [] s = ok s
  place_all fuel left_child right_child (p ∷ ps) s = do
    s' ← place fuel left_child right_child p s
    place_all fuel left_child right_child ps s'

  -- The loop over the predicates of an aggregate: those that stay in `having`, and those pushed.
  unfoldable pub place_having :
      ℕ → ℕ → List AstExpr → List AstExpr × List AstExpr → Outcome (List AstExpr × List AstExpr)
  place_having fuel child [] s = ok s
  place_having fuel child (p ∷ ps) (having, pushing) = do
    down ← can_be_pushed_down fuel p child
    place_having fuel child ps
        (elim down [ true ↦ (having, pushing ++ p ∷ []) | false ↦ (having ++ p ∷ [], pushing) ])

  -- The two branches for joins and cross products. The recursive call is `recurse`.
  unfoldable pub pushdown_two :
      (ℕ → List AstExpr → Outcome LogicalPlan)
      → ℕ
      → ℕ
      → List AstExpr
      → List (AstExpr × AstExpr)
      → (Split → LogicalOp)
      → Outcome LogicalPlan
  pushdown_two recurse fuel start predicates eqs operator = do
    children ← edges lp start
    sides ← two_children children
    s ← place_all fuel sides.0 sides.1 predicates (record {
      left_predicates = [];
      right_predicates = [];
      new_eqs = eqs;
      remaining_predicates = [];
    })
    new_left_lp ← recurse sides.0 s.left_predicates
    new_right_lp ← recurse sides.1 s.right_predicates
    merge new_left_lp (operator s) new_right_lp

  unfoldable pub pushdown_through_node :
      (ℕ → List AstExpr → Outcome LogicalPlan) → ℕ → List AstExpr → LogicalOp → Outcome LogicalPlan
  pushdown_through_node recurse start predicates new_op = do
    children ← edges lp start
    child ← first_child children
    new_lp ← recurse child predicates
    put_over new_op new_lp

  -- The branches of `pushdown`.
  unfoldable pub pushdown_op :
      (ℕ → List AstExpr → Outcome LogicalPlan)
      → ℕ
      → ℕ
      → LogicalOp
      → List AstExpr
      → Outcome LogicalPlan
  pushdown_op recurse fuel start (project p) predicates =
      pushdown_through_node recurse start predicates (project p)
  pushdown_op recurse fuel start (filter f) predicates = do
    children ← edges lp start
    child_idx ← first_child children
    recurse child_idx (separate_predicates_by_and f.predicate predicates)
  pushdown_op recurse fuel start (join j) predicates =
      pushdown_two recurse fuel start (separate_filter j.filter predicates) j.eqs joined
  pushdown_op recurse fuel start (cross_product c) predicates =
      pushdown_two recurse fuel start (separate_filter c.filter predicates) [] joined_or_crossed
  pushdown_op recurse fuel start (scan s) predicates =
      ok
        (add_node Logical.new (
          scan (record s {
            filter = combine_predicates_with_and (separate_filter s.filter predicates);
          }))).1
  pushdown_op recurse fuel start (aggregate a) predicates = do
    children ← edges lp start
    child ← first_child children
    placed ← place_having fuel child (separate_filter a.having predicates) ([], [])
    new_lp ← recurse child placed.1
    put_over (aggregate (record a { having = combine_predicates_with_and placed.0 })) new_lp
  pushdown_op recurse fuel start (sort s) predicates =
      pushdown_through_node recurse start predicates (sort s)
  pushdown_op recurse fuel start (update_op u) predicates = panic
  pushdown_op recurse fuel start (read_deltas d) predicates = panic
  pushdown_op recurse fuel start (write_deltas d) predicates = panic

  unfoldable pub pushdown : ℕ → ℕ → List AstExpr → Outcome LogicalPlan
  pushdown zero start predicates = panic
  pushdown (suc fuel) start predicates = do
    op ← unwrap (get_operator lp start)
    pushdown_op (λ i ps. pushdown fuel i ps) fuel start op predicates

  unfoldable pub apply : ℕ → Outcome LogicalPlan
  apply fuel = do root ← unwrap lp.root; pushdown fuel root []
