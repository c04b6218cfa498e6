-- ===== src/Plan/Pushdown/Columns.antt =====
-- `extract_columns` of optimizer/src/optimizer.rs and `extract_columns_from_plan` of
-- optimizer/src/pushdown_predicate.rs, against the columns of the tree.
use crustydb_labs_cs378_spri.Prelude.{
  ℕ, zero, suc, ◌≤◌, Bool, true, false, ◌&&◌, List, [], ◌∷◌, ◌++◌, Option, none, some, String, ◌≡◌,
  refl, ap, ◌∙◌, Outcome, ok, >>=-ok, arith, string_eq,
}
use crustydb_labs_cs378_spri.Expr.Field.{eq, neq, gt, gte, lt, lte, and, or}
use crustydb_labs_cs378_spri.Expr.Ast.{AstExpr, literal, ident, alias, math, boolean, agg, col_idx}
use crustydb_labs_cs378_spri.Plan.Graph.Nodes.{node_data-lt}
use crustydb_labs_cs378_spri.Plan.Graph.Targets.{
  targets_of, edges-targets_of, append_assoc, append_nil,
}
use crustydb_labs_cs378_spri.Plan.Logical.{LogicalOp, LogicalPlan, edges}
use crustydb_labs_cs378_spri.Plan.Graph
use crustydb_labs_cs378_spri.Plan.Tree.{
  projecting, filtering, aggregating, sorting, joining, crossing, PlanTree, leaf, over, both,
  height, Stands, StandsIn,
}
use crustydb_labs_cs378_spri.Plan.Tree.Build.{PlanInv}
use crustydb_labs_cs378_spri.Plan.Pushdown.{
  equality_sides, extract_columns, extract_columns_vec, extend_each, columns_under, columns_of_op,
  extract_columns_from_plan, can_be_pushed_down, both_pushed, scanned_columns,
}
use crustydb_labs_cs378_spri.Plan.Pushdown.Spec.{
  columns, columns_all, tree_columns, fits, Named, NamedAll, Ready, Readable, scan_columns,
}

pub extract_columns-columns :
    (p : AstExpr) (accum : List String)
    → Named p
    → extract_columns p accum ≡ ok (accum ++ columns p)
unfolding extract_columns
extract_columns-columns (literal f) accum n = rw (append_nil accum) refl
extract_columns-columns (ident i) accum n = refl
extract_columns-columns (alias i e) accum n = extract_columns-columns e accum n
extract_columns-columns (math op l r) accum (nl, nr) =
    >>=-ok _ _ (extract_columns-columns l accum nl)
      (extract_columns-columns r _ nr ∙ ap ok (append_assoc accum (columns l) (columns r)))
extract_columns-columns (boolean op l r) accum (nl, nr) =
    >>=-ok _ _ (extract_columns-columns l accum nl)
      (extract_columns-columns r _ nr ∙ ap ok (append_assoc accum (columns l) (columns r)))
extract_columns-columns (agg op e) accum n = extract_columns-columns e accum n
extract_columns-columns (col_idx i) accum n = absurd n

pub extract_columns_vec-columns_all :
    (es : List AstExpr) (accum : List String)
    → NamedAll es
    → extract_columns_vec es accum ≡ ok (accum ++ columns_all es)
unfolding extract_columns_vec
extract_columns_vec-columns_all [] accum n = rw (append_nil accum) refl
extract_columns_vec-columns_all (e ∷ es) accum (ne, n) =
    >>=-ok _ _ (extract_columns-columns e accum ne) (
      extract_columns_vec-columns_all es _ n
      ∙ ap ok (append_assoc accum (columns e) (columns_all es)))

-- The sides of an equality are parts of it.
pub Named-sides :
    (p : AstExpr) {a b : AstExpr} → equality_sides p ≡ some (a, b) → Named p → Named a × Named b
Named-sides (literal f) e n = cc
Named-sides (ident i) e n = cc
Named-sides (alias i p) e n = cc
Named-sides (math op l r) e n = cc
Named-sides (boolean eq l r) e n = ground (arith, e, n)
Named-sides (boolean neq l r) e n = cc
Named-sides (boolean gt l r) e n = cc
Named-sides (boolean gte l r) e n = cc
Named-sides (boolean lt l r) e n = cc
Named-sides (boolean lte l r) e n = cc
Named-sides (boolean and l r) e n = cc
Named-sides (boolean or l r) e n = cc
Named-sides (agg op p) e n = cc
Named-sides (col_idx i) e n = cc

module _ (catalog : ℕ → Option (List String)) (lp : LogicalPlan) (v : PlanInv lp) where
  abbrev targets : ℕ → List ℕ
  targets i = targets_of lp.dataflow.edge_list i

  pub edges-targets :
      (i : ℕ) {op : LogicalOp}
      → Graph.node_data lp.dataflow i ≡ some op
      → edges lp i ≡ ok (targets i)
  edges-targets i h = edges-targets_of lp.dataflow i v.graph (node_data-lt lp.dataflow i h)

  scanned_columns-scan_columns :
      (c : ℕ) (projection : Option (List AstExpr))
      → Readable catalog c projection
      → scanned_columns catalog lp c projection ≡ ok (scan_columns catalog c projection)
  unfolding scanned_columns
  scanned_columns-scan_columns c none (names, known) = rw (known) refl
  scanned_columns-scan_columns c (some es) named = extract_columns_vec-columns_all es [] named

  pub height_pos : (t : PlanTree) → 1 ≤ height t
  height_pos (leaf s) = omega arith
  height_pos (over op t) = omega arith
  height_pos (both op l r) = omega arith

  columns_under-one :
      (at : ℕ → Outcome (List String)) (i c : ℕ) {op : LogicalOp} (cs : List String)
      → Graph.node_data lp.dataflow i ≡ some op
      → targets i ≡ c ∷ []
      → at c ≡ ok cs
      → columns_under catalog lp at i ≡ ok cs
  unfolding columns_under extend_each
  columns_under-one at i c cs here one known =
      >>=-ok _ _ (edges-targets i here ∙ ap ok one) (>>=-ok _ _ known refl)

  columns_under-two :
      (at : ℕ → Outcome (List String)) (i a b : ℕ) {op : LogicalOp} (as' bs : List String)
      → Graph.node_data lp.dataflow i ≡ some op
      → targets i ≡ a ∷ b ∷ []
      → at a ≡ ok as'
      → at b ≡ ok bs
      → columns_under catalog lp at i ≡ ok (as' ++ bs)
  unfolding columns_under extend_each
  columns_under-two at i a b as' bs here two known_a known_b =
      >>=-ok _ _ (edges-targets i here ∙ ap ok two) (>>=-ok _ _ known_a (>>=-ok _ _ known_b refl))

  extract_step :
      (fuel i : ℕ) {op : LogicalOp}
      → Graph.node_data lp.dataflow i ≡ some op
      → extract_columns_from_plan catalog lp (suc fuel) i
        ≡ columns_of_op catalog lp (λ j. extract_columns_from_plan catalog lp fuel j) i op
  unfolding extract_columns_from_plan
  extract_step fuel i here = rw (here, extract_columns_from_plan) refl

  -- With fuel for the height of the tree, the columns of the plan are found.
  pub columns_refined :
      (fuel i : ℕ) (t : PlanTree)
      → height t ≤ fuel
      → StandsIn lp i t
      → Ready catalog t
      → extract_columns_from_plan catalog lp fuel i ≡ ok (tree_columns catalog t)
  unfolding columns_of_op Stands
  columns_refined zero i t h stands ready = absurd (omega (arith, height_pos t))
  columns_refined (suc fuel) i (leaf s) h (here, at) (nf, readable) =
      extract_step fuel i here ∙ (scanned_columns-scan_columns s.container_id s.projection readable)
  columns_refined (suc fuel) i (over (projecting p) t) h (here, c, at, below) (named, ready) =
      extract_step fuel i here ∙ (extract_columns_vec-columns_all p.identifiers [] named)
  columns_refined (suc fuel) i (over (filtering f) t) h (here, c, at, below) (named, ready) =
      extract_step fuel i here
      ∙ (columns_under-one (λ j. extract_columns_from_plan catalog lp fuel j) i c _ here at
          (columns_refined fuel c t (omega arith) below ready))
  columns_refined (suc fuel) i (over (aggregating a) t) h (here, c, at, below) (nf, ng, nh, ready) =
      extract_step fuel i here
      ∙ (>>=-ok _ _ (extract_columns_vec-columns_all a.fields [] nf)
          (extract_columns_vec-columns_all a.group_by _ ng))
  columns_refined (suc fuel) i (over (sorting o) t) h (here, c, at, below) ready =
      extract_step fuel i here
      ∙ (columns_under-one (λ j. extract_columns_from_plan catalog lp fuel j) i c _ here at
          (columns_refined fuel c t (omega arith) below ready))
  columns_refined (suc fuel) i (both (joining j) l r) h (here, a, b, at, left, right) (nf, rl, rr) =
      extract_step fuel i here
      ∙ (columns_under-two (λ k. extract_columns_from_plan catalog lp fuel k) i a b _ _ here at
          (columns_refined fuel a l (omega arith) left rl)
          (columns_refined fuel b r (omega arith) right rr))
  columns_refined (suc fuel) i (both (crossing x) l r) h (here, a, b, at, left, right)
        (nf, rl, rr) =
      extract_step fuel i here
      ∙ (columns_under-two (λ k. extract_columns_from_plan catalog lp fuel k) i a b _ _ here at
          (columns_refined fuel a l (omega arith) left rl)
          (columns_refined fuel b r (omega arith) right rr))

  pub can_refined :
      (fuel i : ℕ) (t : PlanTree) (p : AstExpr)
      → height t ≤ fuel
      → StandsIn lp i t
      → Ready catalog t
      → Named p
      → can_be_pushed_down catalog lp fuel p i ≡ ok (fits catalog t p)
  unfolding can_be_pushed_down
  can_refined fuel i t p h stands ready named =
      >>=-ok _ _ (extract_columns-columns p [] named)
        (>>=-ok _ _ (columns_refined fuel i t h stands ready) refl)

  pub both_pushed-refined :
      (fuel i j : ℕ) (a b : AstExpr) (x y : Bool)
      → can_be_pushed_down catalog lp fuel a i ≡ ok x
      → can_be_pushed_down catalog lp fuel b j ≡ ok y
      → both_pushed catalog lp fuel a i b j ≡ ok (x && y)
  unfolding both_pushed
  both_pushed-refined fuel i j a b true y known_a known_b = rw (known_a) known_b
  both_pushed-refined fuel i j a b false y known_a known_b = rw (known_a) refl
