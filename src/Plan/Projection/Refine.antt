-- ===== src/Plan/Projection/Refine.antt =====
-- `pushdown` and `apply` of optimizer/src/pushdown_projection.rs on graphs, against their form on trees.
use crustydb_labs_cs378_spri.Prelude.{
  ℕ, zero, suc, ◌≤◌, ◌≡◌, refl, sym, ap, ◌∙◌, map, List, [], ◌∷◌, ◌++◌, Option, none, some, String,
  Outcome, ok, ◌>>=◌, >>=-ok, unwrap, arith,
}
use crustydb_labs_cs378_spri.Expr.Ast.{AstExpr}
use crustydb_labs_cs378_spri.Plan.Graph.{node_data}
use crustydb_labs_cs378_spri.Plan.Graph.Targets.{targets_of, append_assoc, append_nil}
use crustydb_labs_cs378_spri.Plan.Logical.{
  LogicalOp, LogicalPlan, add_node, add_edge, merge, root_or,
}
use crustydb_labs_cs378_spri.Plan.Tree.{
  OneOp, projecting, filtering, aggregating, sorting, one_op, TwoOp, joining, crossing, two_op,
  PlanTree, leaf, over, both, height, Stands, StandsIn,
}
use crustydb_labs_cs378_spri.Plan.Tree.Build.{PlanInv, Represents, put_over-Represents}
use crustydb_labs_cs378_spri.Plan.Tree.Merge.{merge-Represents}
use crustydb_labs_cs378_spri.Plan.Pushdown.{put_over}
use crustydb_labs_cs378_spri.Plan.Pushdown.Columns.{
  edges-targets, height_pos, extract_columns-columns, extract_columns_vec-columns_all,
}
use crustydb_labs_cs378_spri.Plan.Pushdown.Refine.{Represents-leaf}
use crustydb_labs_cs378_spri.Plan.Pushdown.Spec.{columns, columns_all, NamedFilter}
use crustydb_labs_cs378_spri.Plan.Projection.{
  extract_eqs, extract_filter, put_top, through_one, through_two, project_op, push_projection,
  apply,
}
use crustydb_labs_cs378_spri.Plan.Projection.Spec.{
  eqs_columns, filter_columns, one_columns, two_columns, NamedEqs, narrow, Narrowable, ListsOnce,
  Narrowed,
}
use crustydb_labs_cs378_spri.Plan.Projection.Kept.{narrow-Narrowed}

extract_eqs-eqs_columns :
    (eqs : List (AstExpr × AstExpr)) (cols : List String)
    → NamedEqs eqs
    → extract_eqs eqs cols ≡ ok (cols ++ eqs_columns eqs)
unfolding extract_eqs
extract_eqs-eqs_columns [] cols n = ap ok (sym (append_nil cols))
extract_eqs-eqs_columns ((l, r) ∷ eqs) cols (nl, nr, n) =
    >>=-ok _ _ (extract_columns-columns l cols nl) (
      >>=-ok _ _ (extract_columns-columns r _ nr) (
        extract_eqs-eqs_columns eqs _ n
        ∙ ap ok (
            append_assoc (cols ++ columns l) (columns r) (eqs_columns eqs)
            ∙ append_assoc cols (columns l) (columns r ++ eqs_columns eqs))))

extract_filter-filter_columns :
    (f : Option AstExpr) (cols : List String)
    → NamedFilter f
    → extract_filter f cols ≡ ok (cols ++ filter_columns f)
unfolding extract_filter
extract_filter-filter_columns none cols n = ap ok (sym (append_nil cols))
extract_filter-filter_columns (some f) cols n = extract_columns-columns f cols n

put_top-Represents :
    (op : OneOp) (lp : LogicalPlan) (t : PlanTree)
    → Represents lp t
    → (lp' : LogicalPlan) × (put_top (one_op op) lp ≡ ok lp') × Represents lp' (over op t)
unfolding put_top put_over
put_top-Represents op lp t (v, r, at_root, stands) =
    let (lp', done, rep) = put_over-Represents op lp t (v, r, at_root, stands) in
    let added = add_node lp (one_op op) in
    (
      lp',
      ap (λ o. unwrap (root_or o added.0) >>= (λ old_root. add_edge added.1 added.0 old_root))
            at_root
          ∙ sym (ap (λ o. unwrap o >>= (λ old_root. add_edge added.1 added.0 old_root)) at_root)
          ∙ done,
      rep,
    )

-- That a call builds a plan of the tree and leaves the columns.
abbrev pub Narrows : Outcome (LogicalPlan × List String) → PlanTree × List String → Type 0
Narrows call (t, cols) = (lp' : LogicalPlan) × (call ≡ ok (lp', cols)) × Represents lp' t

module _ (in_order : List String → List String) (catalog : ℕ → Option (List String))
    (schema_of : ℕ → List String) (lp : LogicalPlan) (v : PlanInv lp) where
  module _ (recurse : ℕ → List String → Outcome (LogicalPlan × List String)) (i : ℕ)
      {here_op : LogicalOp} (here : node_data lp.dataflow i ≡ some here_op) where
    through_one-Narrows :
        (op : OneOp) (c : ℕ) (cols cols' : List String) (t : PlanTree)
        → targets_of lp.dataflow.edge_list i ≡ c ∷ []
        → Narrows (recurse c cols) (t, cols')
        → Narrows (through_one in_order catalog lp recurse i (one_op op) cols) (over op t, cols')
    unfolding through_one
    through_one-Narrows op c cols cols' t at (lp1, done, rep) =
        let (lp2, put, rep2) = put_top-Represents op lp1 t rep in
        (
          lp2,
          >>=-ok _ _ (edges-targets catalog lp v i here ∙ ap ok at) (
              >>=-ok (recurse c cols)
                (λ below. put_top (one_op op) below.0 >>= (λ new_lp. ok (new_lp, below.1))) done
                (>>=-ok _ (λ new_lp. ok (new_lp, cols')) put refl)),
          rep2,
        )

    through_two-Narrows :
        (op : TwoOp) (a b : ℕ) (cols cols' cols'' : List String) (l r : PlanTree)
        → targets_of lp.dataflow.edge_list i ≡ a ∷ b ∷ []
        → Narrows (recurse a cols) (l, cols')
        → Narrows (recurse b cols') (r, cols'')
        → Narrows (through_two in_order catalog lp recurse i (two_op op) cols) (both op l r, cols'')
    unfolding through_two
    through_two-Narrows op a b cols cols' cols'' l r at (lpl, done_l, rep_l) (lpr, done_r, rep_r) =
        let (lp', merged, rep) = merge-Represents op lpl lpr l r rep_l rep_r in
        (
          lp',
          >>=-ok _ _ (edges-targets catalog lp v i here ∙ ap ok at) (
              >>=-ok (recurse a cols)
                (λ x.
                  recurse b x.1
                  >>= (λ y. merge x.0 (two_op op) y.0 >>= (λ new_lp. ok (new_lp, y.1))))
                done_l
                (>>=-ok (recurse b cols')
                  (λ y. merge lpl (two_op op) y.0 >>= (λ new_lp. ok (new_lp, y.1))) done_r
                  (>>=-ok _ (λ new_lp. ok (new_lp, cols'')) merged refl))),
          rep,
        )

  projection_step :
      (fuel i : ℕ) (cols : List String) {op : LogicalOp}
      → node_data lp.dataflow i ≡ some op
      → push_projection in_order catalog lp (suc fuel) i cols
        ≡ project_op in_order catalog lp
            (λ j cs. push_projection in_order catalog lp fuel j cs)
            i
            op
            cols
  unfolding push_projection
  projection_step fuel i cols here = >>=-ok _ _ (ap unwrap here) refl

  after :
      {call call' : Outcome (LogicalPlan × List String)} (out : PlanTree × List String)
      → call ≡ call'
      → Narrows call' out
      → Narrows call out
  after out e (lp', done, rep) = (lp', e ∙ done, rep)

  pub push_projection-Narrows :
      (fuel i : ℕ) (t : PlanTree) (cols : List String)
      → height t ≤ fuel
      → StandsIn lp i t
      → Narrowable catalog schema_of t
      → Narrows (push_projection in_order catalog lp fuel i cols) (narrow in_order schema_of t cols)
  unfolding project_op narrow Stands
  push_projection-Narrows zero i t cols h stands ready =
      absurd (omega (arith, height_pos catalog lp v t))
  push_projection-Narrows (suc fuel) i (leaf s) cols h (here, at) known =
      (_, projection_step fuel i cols here ∙ >>=-ok _ _ (ap unwrap known) refl, Represents-leaf _)
  push_projection-Narrows (suc fuel) i (over (projecting p) t) cols h (here, c, at, below)
        (named, ready) =
      after (narrow in_order schema_of (over (projecting p) t) cols)
        (projection_step fuel i cols here
          ∙ >>=-ok _ _ (extract_columns_vec-columns_all p.identifiers cols named) refl)
        (through_one-Narrows (λ j cs. push_projection in_order catalog lp fuel j cs) i here
          (projecting p) c _ _ _ at
          (push_projection-Narrows fuel c t (cols ++ one_columns (projecting p)) (omega arith) below
            ready))
  push_projection-Narrows (suc fuel) i (over (filtering f) t) cols h (here, c, at, below)
        (named, ready) =
      after (narrow in_order schema_of (over (filtering f) t) cols)
        (projection_step fuel i cols here
          ∙ >>=-ok _ _ (extract_columns-columns f.predicate cols named) refl)
        (through_one-Narrows (λ j cs. push_projection in_order catalog lp fuel j cs) i here
          (filtering f) c _ _ _ at
          (push_projection-Narrows fuel c t (cols ++ one_columns (filtering f)) (omega arith) below
            ready))
  push_projection-Narrows (suc fuel) i (over (aggregating a) t) cols h (here, c, at, below)
        ((nf, ng), ready) =
      after (narrow in_order schema_of (over (aggregating a) t) cols)
        (projection_step fuel i cols here
          ∙ >>=-ok _ _ (extract_columns_vec-columns_all a.fields cols nf) (
              >>=-ok _ _
                (extract_columns_vec-columns_all a.group_by _ ng
                  ∙ ap ok (append_assoc cols (columns_all a.fields) (columns_all a.group_by)))
                refl))
        (through_one-Narrows (λ j cs. push_projection in_order catalog lp fuel j cs) i here
          (aggregating a) c _ _ _ at
          (push_projection-Narrows fuel c t (cols ++ one_columns (aggregating a)) (omega arith)
            below ready))
  push_projection-Narrows (suc fuel) i (over (sorting s) t) cols h (here, c, at, below)
        (named, ready) =
      after (narrow in_order schema_of (over (sorting s) t) cols)
        (projection_step fuel i cols here
          ∙ >>=-ok _ _ (extract_columns_vec-columns_all (map (λ f. f.0) s.fields) cols named) refl)
        (through_one-Narrows (λ j cs. push_projection in_order catalog lp fuel j cs) i here
          (sorting s) c _ _ _ at
          (push_projection-Narrows fuel c t (cols ++ one_columns (sorting s)) (omega arith) below
            ready))
  push_projection-Narrows (suc fuel) i (both (joining j) l r) cols h (here, a, b, at, left, right)
        ((ne, nf), rl, rr) =
      after (narrow in_order schema_of (both (joining j) l r) cols)
        (projection_step fuel i cols here
          ∙ >>=-ok _ _ (extract_eqs-eqs_columns j.eqs cols ne) (
              >>=-ok _ _
                (extract_filter-filter_columns j.filter _ nf
                  ∙ ap ok (append_assoc cols (eqs_columns j.eqs) (filter_columns j.filter)))
                refl))
        (through_two-Narrows (λ k cs. push_projection in_order catalog lp fuel k cs) i here
          (joining j) a b _ _ _ _ _ at
          (push_projection-Narrows fuel a l (cols ++ two_columns (joining j)) (omega arith) left rl)
          (push_projection-Narrows fuel b r _ (omega arith) right rr))
  push_projection-Narrows (suc fuel) i (both (crossing x) l r) cols h (here, a, b, at, left, right)
        (u, rl, rr) =
      after (narrow in_order schema_of (both (crossing x) l r) cols)
        (projection_step fuel i cols here)
        (through_two-Narrows (λ k cs. push_projection in_order catalog lp fuel k cs) i here
          (crossing x) a b _ _ _ _ _ at
          (after (narrow in_order schema_of l (cols ++ []))
            (ap (λ cs. push_projection in_order catalog lp fuel a cs) (sym (append_nil cols)))
            (push_projection-Narrows fuel a l (cols ++ []) (omega arith) left rl))
          (push_projection-Narrows fuel b r _ (omega arith) right rr))

-- On a well-formed plan that represents a tree, where the catalog knows the table of every scan, no
-- expression that the rule reads is bound (has the index of a column), the set of columns lists each of its
-- members once in some order, and the fuel is at least the height, the rule returns, without a panic, a
-- well-formed plan of the same operators. Its scans have new projections, to plain columns: each column of
-- the table once that the operators on the way to the scan read, or those in a tree to its left. The columns
-- that only the filter of a cross product reads are not counted as read.
pub apply-Narrowed :
    (in_order : List String → List String) (catalog : ℕ → Option (List String))
    (schema_of : ℕ → List String) (lp : LogicalPlan) (fuel : ℕ) (t : PlanTree)
    → ListsOnce in_order
    → Represents lp t
    → Narrowable catalog schema_of t
    → height t ≤ fuel
    → (lp' : LogicalPlan) × (t' : PlanTree) × (apply in_order catalog lp fuel ≡ ok lp')
      × Represents lp' t'
      × Narrowed schema_of t [] t'
unfolding apply
apply-Narrowed in_order catalog schema_of lp fuel t listed (v, r, at_root, stands) ready h =
    let (lp', done, rep) =
      push_projection-Narrows in_order catalog schema_of lp v fuel r t [] h stands ready in
    (
      lp',
      (narrow in_order schema_of t []).0,
      >>=-ok _ _ (ap unwrap at_root) (>>=-ok _ _ done refl),
      rep,
      narrow-Narrowed in_order schema_of listed t [],
    )
