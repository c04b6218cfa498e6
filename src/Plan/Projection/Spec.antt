-- ===== src/Plan/Projection/Spec.antt =====
-- The pushdown of projections on trees: what optimizer/src/pushdown_projection.rs is to make of a plan. The
-- projections of the scans are described by what they contain and not by how the code finds them.
use crustydb_labs_cs378_spri.Prelude.{
  ℕ, ◌≡◌, map, List, [], ◌∷◌, ◌++◌, Option, none, some, String, ◌&&◌, contains, string_eq, Distinct,
}
use crustydb_labs_cs378_spri.Expr.Ast.{AstExpr, ident}
use crustydb_labs_cs378_spri.Plan.Tree.{
  OneOp, projecting, filtering, aggregating, sorting, TwoOp, joining, crossing, PlanTree, leaf,
  over, both,
}
use crustydb_labs_cs378_spri.Plan.Pushdown.Spec.{columns, columns_all, Named, NamedAll, NamedFilter}
use crustydb_labs_cs378_spri.Plan.Projection.{new_projection}

abbrev pub eqs_columns : List (AstExpr × AstExpr) → List String
eqs_columns [] = []
eqs_columns ((l, r) ∷ eqs) = columns l ++ (columns r ++ eqs_columns eqs)

abbrev pub filter_columns : Option AstExpr → List String
filter_columns none = []
filter_columns (some f) = columns f

-- The columns that an operator reads, as this rule counts them; those of the filter of a cross product are left out.
abbrev pub one_columns : OneOp → List String
one_columns (projecting p) = columns_all p.identifiers
one_columns (filtering f) = columns f.predicate
one_columns (aggregating a) = columns_all a.fields ++ columns_all a.group_by
one_columns (sorting s) = columns_all (map (λ f. f.0) s.fields)

abbrev pub two_columns : TwoOp → List String
two_columns (joining j) = eqs_columns j.eqs ++ filter_columns j.filter
two_columns (crossing c) = []

abbrev pub NamedEqs : List (AstExpr × AstExpr) → Type 0
NamedEqs [] = Unit {0}
NamedEqs ((l, r) ∷ eqs) = Named l × Named r × NamedEqs eqs

abbrev pub NamedOne : OneOp → Type 0
NamedOne (projecting p) = NamedAll p.identifiers
NamedOne (filtering f) = Named f.predicate
NamedOne (aggregating a) = NamedAll a.fields × NamedAll a.group_by
NamedOne (sorting s) = NamedAll (map (λ f. f.0) s.fields)

abbrev pub NamedTwo : TwoOp → Type 0
NamedTwo (joining j) = NamedEqs j.eqs × NamedFilter j.filter
NamedTwo (crossing c) = Unit {0}

-- What is read anywhere in a tree, left before right.
unfoldable pub columns_read : PlanTree → List String
columns_read (leaf s) = []
columns_read (over op t) = one_columns op ++ columns_read t
columns_read (both op l r) = two_columns op ++ (columns_read l ++ columns_read r)

-- A projection to plain columns: each one of the schema that is among those asked for, once.
pub record KeepsColumns (schema cols : List String) (projection : Option (List AstExpr))
    : Type 0 where
  pub names : List String
  pub plain : projection ≡ some (map (λ n. ident n) names)
  pub once : Distinct names
  pub members : (x : String) → contains names x ≡ (contains cols x && contains schema x)

module _ (schema_of : ℕ → List String) where
  -- The second tree is the first one, with other projections of the scans: to the columns of the table
  -- that are among those given or that are read on the way to the scan or in a tree to its left.
  unfoldable pub Narrowed : PlanTree → List String → PlanTree → Type 0
  Narrowed (leaf s) cols t' =
      (projection : Option (List AstExpr)) × (t' ≡ leaf (record s { projection = projection }))
      × KeepsColumns (schema_of s.container_id) cols projection
  Narrowed (over op t) cols t' =
      (u : PlanTree) × (t' ≡ over op u) × Narrowed t (cols ++ one_columns op) u
  Narrowed (both op l r) cols t' =
      (u : PlanTree) × (v : PlanTree) × (t' ≡ both op u v)
      × Narrowed l (cols ++ two_columns op) u
      × Narrowed r ((cols ++ two_columns op) ++ columns_read l) v

-- What a set gives: its elements, each once, in some order.
pub record ListsOnce (in_order : List String → List String) : Type 0 where
  pub once : (cols : List String) → Distinct (in_order cols)
  pub members : (cols : List String) (x : String) → contains (in_order cols) x ≡ contains cols x

module _ (in_order : List String → List String) (schema_of : ℕ → List String) where
  -- The tree that the code builds, and the columns it has seen at its end.
  unfoldable pub narrow : PlanTree → List String → PlanTree × List String
  narrow (leaf s) cols = (
    leaf (record s {
      projection = some (new_projection (schema_of s.container_id) (in_order cols));
    }),
    cols,
  )
  narrow (over op t) cols =
      let below = narrow t (cols ++ one_columns op) in (over op below.0, below.1)
  narrow (both op l r) cols =
      let left = narrow l (cols ++ two_columns op) in
      let right = narrow r left.1 in (both op left.0 right.0, right.1)

module _ (catalog : ℕ → Option (List String)) (schema_of : ℕ → List String) where
  -- No expression of the tree is bound, and the catalog has the table of every scan.
  abbrev pub Narrowable : PlanTree → Type 0
  Narrowable (leaf s) = catalog s.container_id ≡ some (schema_of s.container_id)
  Narrowable (over op t) = NamedOne op × Narrowable t
  Narrowable (both op l r) = NamedTwo op × Narrowable l × Narrowable r
