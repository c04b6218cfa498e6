-- ===== src/Plan/Physical/Operators.antt =====
-- The physical operator of each logical one: `logical_op_to_physical_op` of
-- queryexe/src/query/planner.rs.
use crustydb_labs_cs378_spri.Prelude.{
  ℕ, ◌≡◌, refl, sym, ap, ◌∙◌, ◌&&◌, List, [], ◌∷◌, ◌++◌, Option, none, some, nat_eq, if◌then◌else◌,
  ok, >>=-ok, arith,
}
use crustydb_labs_cs378_spri.Expr.Field.{eq}
use crustydb_labs_cs378_spri.Expr.Ast.{AstExpr}
use crustydb_labs_cs378_spri.Plan.Graph.{Node}
use crustydb_labs_cs378_spri.Plan.Graph.Targets.{append_nil}
use crustydb_labs_cs378_spri.Plan.Logical.{
  LogicalOp, scan, project, filter, aggregate, join, cross_product, sort, read_deltas, write_deltas,
  update_op,
}
use crustydb_labs_cs378_spri.Plan.Physical.{
  PhysicalOp, scan_op, project_op, hash_aggregate, cross_product_op, nested_loop_join, hash_join,
  filter_op, sort_op, PhysicalPlan, add_base_table, is_ident, join_op, logical_op_to_physical_op,
}

abbrev pub converted_join : List (AstExpr × AstExpr) → Option PhysicalOp
converted_join [] = none
converted_join ((l, r) ∷ eqs) = some (
    if is_ident l && is_ident r
    then hash_join (record { left = l; right = r; op = eq })
    else nested_loop_join (record { left = l; right = r; op = eq }))

-- The physical operator for each logical one that has one.
abbrev pub converted : LogicalOp → Option PhysicalOp
converted (scan s) = some (
    scan_op
      (record { container_id = s.container_id; filter = s.filter; projection = s.projection }))
converted (project p) = some (project_op (record { identifiers = p.identifiers }))
converted (aggregate a) =
    some (hash_aggregate (record { fields = a.fields; group_by = a.group_by }))
converted (cross_product c) = some cross_product_op
converted (join j) = converted_join j.eqs
converted (filter f) = some (filter_op (record { predicate = f.predicate }))
converted (sort s) = some (sort_op (record { fields = s.fields }))
converted (read_deltas d) = none
converted (write_deltas d) = none
converted (update_op u) = none

-- Every node has a physical operator.
abbrev pub Convertible : List (Node LogicalOp) → Type 0
Convertible [] = Unit {0}
Convertible (n ∷ ns) = ((pop : PhysicalOp) × (converted n.value ≡ some pop)) × Convertible ns

abbrev pub scanned : LogicalOp → List ℕ
scanned (scan s) = s.container_id ∷ []
scanned _ = []

abbrev pub scanned_tables : List (Node LogicalOp) → List ℕ
scanned_tables [] = []
scanned_tables (n ∷ ns) = scanned n.value ++ scanned_tables ns

pub some_inj {ℓ} : {A : Type ℓ} {a b : A} → some a ≡ some b → a ≡ b
some_inj e = ground (arith, e)

-- What the conversion of one operator changes in the plan.
pub record OneConverted (op : LogicalOp) (pop : PhysicalOp) (pp pp' : PhysicalPlan) : Type 0 where
  pub done : logical_op_to_physical_op op pp ≡ ok (pop, pp')
  pub same : pp'.dataflow ≡ pp.dataflow
  pub tables : pp'.base_tables ≡ pp.base_tables ++ scanned op

unchanged :
    (op : LogicalOp) (x pop : PhysicalOp) (pp : PhysicalPlan)
    → logical_op_to_physical_op op pp ≡ ok (x, pp)
    → some x ≡ some pop
    → [] ≡ scanned op
    → (pp' : PhysicalPlan) × OneConverted op pop pp pp'
unchanged op x pop pp done h no_table = (
  pp,
  record {
    done = done ∙ ap (λ y. ok (y, pp)) (some_inj h);
    same = refl;
    tables = sym (append_nil pp.base_tables) ∙ ap (λ ts. pp.base_tables ++ ts) no_table;
  },
)

pub logical_op_to_physical_op-OneConverted :
    (op : LogicalOp) (pop : PhysicalOp) (pp : PhysicalPlan)
    → converted op ≡ some pop
    → (pp' : PhysicalPlan) × OneConverted op pop pp pp'
unfolding logical_op_to_physical_op
logical_op_to_physical_op-OneConverted (scan s) pop pp h = (
  add_base_table pp s.container_id,
  record {
    done = ap (λ y. ok (y, add_base_table pp s.container_id)) (some_inj h);
    same = refl;
    tables = refl;
  },
)
logical_op_to_physical_op-OneConverted (project p) pop pp h = unchanged _ _ pop pp refl h refl
logical_op_to_physical_op-OneConverted (aggregate a) pop pp h = unchanged _ _ pop pp refl h refl
logical_op_to_physical_op-OneConverted (cross_product c) pop pp h = unchanged _ _ pop pp refl h refl
logical_op_to_physical_op-OneConverted (filter f) pop pp h = unchanged _ _ pop pp refl h refl
logical_op_to_physical_op-OneConverted (sort s) pop pp h = unchanged _ _ pop pp refl h refl
logical_op_to_physical_op-OneConverted (read_deltas d) pop pp h = cc
logical_op_to_physical_op-OneConverted (write_deltas d) pop pp h = cc
logical_op_to_physical_op-OneConverted (update_op u) pop pp h = cc
logical_op_to_physical_op-OneConverted (join j) pop pp h = (
  pp,
  record {
    done = >>=-ok _ _ (of_eqs j.eqs h) refl;
    same = refl;
    tables = sym (append_nil pp.base_tables);
  },
)
  where
    of_eqs : (eqs : List (AstExpr × AstExpr)) → converted_join eqs ≡ some pop → join_op eqs ≡ ok pop
    of_eqs [] e = cc
    of_eqs ((l, r) ∷ eqs) e = ap ok (some_inj e)
