-- ===== src/Plan/Pushdown/Spec.antt =====
-- The pushdown of predicates on trees: what optimizer/src/pushdown_predicate.rs is to make of a plan.
use crustydb_labs_cs378_spri.Prelude.{
  ℕ, Bool, ◌&&◌, List, [], ◌∷◌, ◌++◌, Option, none, some, String, ◌≡◌, if◌then◌else◌,
}
use crustydb_labs_cs378_spri.Expr.Ast.{AstExpr, literal, ident, alias, math, boolean, agg, col_idx}
use crustydb_labs_cs378_spri.Plan.Pushdown.{
  Split, go_left, go_right, stay, add_eq, equality_sides, is_subset, separate_filter,
  separate_predicates_by_and, combine_predicates_with_and,
}
use crustydb_labs_cs378_spri.Plan.Tree.{
  projecting, filtering, aggregating, sorting, TwoOp, joining, crossing, PlanTree, leaf, over, both,
}

abbrev pub columns : AstExpr → List String
columns (literal f) = []
columns (ident n) = n ∷ []
columns (alias n e) = columns e
columns (math op l r) = columns l ++ columns r
columns (boolean op l r) = columns l ++ columns r
columns (agg op e) = columns e
columns (col_idx i) = []

abbrev pub columns_all : List AstExpr → List String
columns_all [] = []
columns_all (e ∷ es) = columns e ++ columns_all es

-- Where a predicate goes, from what fits the two children.
abbrev pub place_equality :
    (AstExpr → Bool) → (AstExpr → Bool) → Option (AstExpr × AstExpr) → AstExpr → Split → Split
place_equality fits_l fits_r none p s = stay p s
place_equality fits_l fits_r (some (a, b)) p s =
    if fits_l a && fits_r b
    then add_eq a b s
    else (if fits_r a && fits_l b then add_eq b a s else stay p s)

abbrev pub placed : (AstExpr → Bool) → (AstExpr → Bool) → AstExpr → Split → Split
placed fits_l fits_r p s =
    if fits_l p
    then go_left p s
    else (if fits_r p then go_right p s else place_equality fits_l fits_r (equality_sides p) p s)

abbrev pub all_placed : (AstExpr → Bool) → (AstExpr → Bool) → List AstExpr → Split → Split
all_placed fits_l fits_r [] s = s
all_placed fits_l fits_r (p ∷ ps) s = all_placed fits_l fits_r ps (placed fits_l fits_r p s)

abbrev pub start_with : List (AstExpr × AstExpr) → Split
start_with eqs = record {
  left_predicates = [];
  right_predicates = [];
  new_eqs = eqs;
  remaining_predicates = [];
}

-- Over an aggregate, the predicates that stay and those that are pushed.
abbrev pub having_placed :
    (AstExpr → Bool) → List AstExpr → List AstExpr × List AstExpr → List AstExpr × List AstExpr
having_placed fits [] s = s
having_placed fits (p ∷ ps) (having, pushing) =
    having_placed fits ps
      (if fits p then (having, pushing ++ p ∷ []) else (having ++ p ∷ [], pushing))

abbrev pub join_of : Split → TwoOp
join_of s =
    joining
      (record { eqs = s.new_eqs; filter = combine_predicates_with_and s.remaining_predicates })

abbrev pub cross_of : List (AstExpr × AstExpr) → Split → TwoOp
cross_of [] s = crossing (record { filter = combine_predicates_with_and s.remaining_predicates })
cross_of (e ∷ es) s = join_of s

-- The names of a table, where the catalog has it.
abbrev pub names_or_none : Option (List String) → List String
names_or_none none = []
names_or_none (some names) = names

module _ (catalog : ℕ → Option (List String)) where
  abbrev pub scan_columns : ℕ → Option (List AstExpr) → List String
  scan_columns c none = names_or_none (catalog c)
  scan_columns c (some projection) = columns_all projection

  abbrev pub tree_columns : PlanTree → List String
  tree_columns (leaf s) = scan_columns s.container_id s.projection
  tree_columns (over (projecting p) t) = columns_all p.identifiers
  tree_columns (over (filtering f) t) = tree_columns t
  tree_columns (over (aggregating a) t) = columns_all a.fields ++ columns_all a.group_by
  tree_columns (over (sorting s) t) = tree_columns t
  tree_columns (both op l r) = tree_columns l ++ tree_columns r

  abbrev pub fits : PlanTree → AstExpr → Bool
  fits t p = is_subset (columns p) (tree_columns t)

  -- The predicates over two children, by category.
  abbrev pub split : PlanTree → PlanTree → List AstExpr → List (AstExpr × AstExpr) → Split
  split l r ps eqs = all_placed (fits l) (fits r) ps (start_with eqs)

  unfoldable pub push : PlanTree → List AstExpr → PlanTree
  push (leaf s) ps =
      leaf (record s { filter = combine_predicates_with_and (separate_filter s.filter ps) })
  push (over (projecting p) t) ps = over (projecting p) (push t ps)
  push (over (filtering f) t) ps = push t (separate_predicates_by_and f.predicate ps)
  push (over (aggregating a) t) ps =
      let s = having_placed (fits t) (separate_filter a.having ps) ([], []) in
      over (aggregating (record a { having = combine_predicates_with_and s.0 })) (push t s.1)
  push (over (sorting o) t) ps = over (sorting o) (push t ps)
  push (both (joining j) l r) ps =
      let s = split l r (separate_filter j.filter ps) j.eqs in
      both (join_of s) (push l s.left_predicates) (push r s.right_predicates)
  push (both (crossing c) l r) ps =
      let s = split l r (separate_filter c.filter ps) [] in
      both (cross_of s.new_eqs s) (push l s.left_predicates) (push r s.right_predicates)

-- An expression before it is bound: it has no index of a column.
abbrev pub Named : AstExpr → Type 0
Named (literal f) = Unit {0}
Named (ident n) = Unit {0}
Named (alias n e) = Named e
Named (math op l r) = Named l × Named r
Named (boolean op l r) = Named l × Named r
Named (agg op e) = Named e
Named (col_idx i) = ⊥

abbrev pub NamedAll : List AstExpr → Type 0
NamedAll [] = Unit {0}
NamedAll (p ∷ ps) = Named p × NamedAll ps

abbrev pub NamedFilter : Option AstExpr → Type 0
NamedFilter none = Unit {0}
NamedFilter (some p) = Named p

module _ (catalog : ℕ → Option (List String)) where
  abbrev pub Readable : ℕ → Option (List AstExpr) → Type 0
  Readable c none = (names : List String) × (catalog c ≡ some names)
  Readable c (some projection) = NamedAll projection

  -- No expression of the tree is bound, and the catalog has every table whose columns are asked for.
  abbrev pub Ready : PlanTree → Type 0
  Ready (leaf s) = NamedFilter s.filter × Readable s.container_id s.projection
  Ready (over (projecting p) t) = NamedAll p.identifiers × Ready t
  Ready (over (filtering f) t) = Named f.predicate × Ready t
  Ready (over (aggregating a) t) =
      NamedAll a.fields × NamedAll a.group_by × NamedFilter a.having × Ready t
  Ready (over (sorting o) t) = Ready t
  Ready (both (joining j) l r) = NamedFilter j.filter × Ready l × Ready r
  Ready (both (crossing c) l r) = NamedFilter c.filter × Ready l × Ready r
