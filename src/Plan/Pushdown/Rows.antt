-- ===== src/Plan/Pushdown/Rows.antt =====
-- What a tree computes before and after optimizer/src/pushdown_predicate.rs.
use crustydb_labs_cs378_spri.Prelude.{
  ℕ, Bool, ◌&&◌, List, [], ◌∷◌, ◌++◌, Option, none, some, String, string_eq, map, ◌≡◌, refl, sym,
  ap, ◌∙◌, length-append, ◌≤◌, arith, subst, ok,
}
use crustydb_labs_cs378_spri.Prelude.Int.{ℤ}
use crustydb_labs_cs378_spri.Expr.Ast.{AstExpr}
use crustydb_labs_cs378_spri.Plan.Logical.{AggregateNode, LogicalPlan}
use crustydb_labs_cs378_spri.Plan.Tree.{
  projecting, filtering, aggregating, sorting, joining, crossing, PlanTree, leaf, over, both,
  height,
}
use crustydb_labs_cs378_spri.Plan.Tree.Build.{Represents}
use crustydb_labs_cs378_spri.Plan.Pushdown.Refine.{apply-push}
use crustydb_labs_cs378_spri.Plan.Pushdown.{
  Split, apply, separate_predicates_by_and, separate_filter, combine_predicates_with_and,
}
use crustydb_labs_cs378_spri.Plan.Pushdown.Spec.{
  columns_all, tree_columns, names_or_none, split, join_of, cross_of, push, scan_columns, Ready,
}
use crustydb_labs_cs378_spri.Plan.Pushdown.Truth.{
  InScope, FilterInScope, Apart, Idents, all_hold-separate, all_hold-project_row,
  length-project_row,
}
use crustydb_labs_cs378_spri.Plan.Pushdown.Scope.{InScope-sides, InScope-below, All-separate}
use crustydb_labs_cs378_spri.Plan.Rows.{
  Row, holds, all_hold, filter_holds, eqs_hold, project_row, scan_rows, rows,
}
use crustydb_labs_cs378_spri.Plan.Rows.Keep.{
  keep, keep-keep, keep_all, keep_agree, keep-map, All, All-keep, All-map, All-nested, nested,
}
use crustydb_labs_cs378_spri.Plan.Pushdown.Scanned.{Fit, ScanScope, output, scan_kept}
use crustydb_labs_cs378_spri.Plan.Pushdown.Joined.{placed_in, placed_in-ScopedSplit, two_kept}

module _ (catalog : ℕ → Option (List String)) where
  pub tree_columns-push :
      (t : PlanTree) (ps : List AstExpr)
      → tree_columns catalog (push catalog t ps) ≡ tree_columns catalog t
  unfolding push
  tree_columns-push (leaf s) ps = refl
  tree_columns-push (over (projecting p) t) ps = refl
  tree_columns-push (over (filtering f) t) ps =
      tree_columns-push t (separate_predicates_by_and f.predicate ps)
  tree_columns-push (over (aggregating a) t) ps = refl
  tree_columns-push (over (sorting o) t) ps = tree_columns-push t ps
  tree_columns-push (both (joining j) l r) ps =
      let s = split catalog l r (separate_filter j.filter ps) j.eqs in
      rw (tree_columns-push l s.left_predicates, tree_columns-push r s.right_predicates) refl
  tree_columns-push (both (crossing c) l r) ps =
      let s = split catalog l r (separate_filter c.filter ps) [] in
      rw (tree_columns-push l s.left_predicates, tree_columns-push r s.right_predicates) refl

  module _ (tables : ℕ → List Row) where
    -- Every expression is over columns that are there, projections are to columns, the sides of a join
    -- have no name in common, the rows of a table fit its schema, and nothing is aggregated or sorted.
    abbrev pub Scoped : PlanTree → Type 0
    Scoped (leaf s) =
        let schema = names_or_none (catalog s.container_id) in
        All (Fit schema) (tables s.container_id)
        × FilterInScope schema s.filter
        × ScanScope schema s.projection
    Scoped (over (projecting p) t) = Idents (tree_columns catalog t) p.identifiers × Scoped t
    Scoped (over (filtering f) t) = InScope (tree_columns catalog t) f.predicate × Scoped t
    Scoped (over (aggregating a) t) = ⊥
    Scoped (over (sorting o) t) = ⊥
    Scoped (both (joining j) l r) =
        FilterInScope (tree_columns catalog l ++ tree_columns catalog r) j.filter
        × Apart (tree_columns catalog l) (tree_columns catalog r)
        × Scoped l
        × Scoped r
    Scoped (both (crossing c) l r) =
        FilterInScope (tree_columns catalog l ++ tree_columns catalog r) c.filter
        × Apart (tree_columns catalog l) (tree_columns catalog r)
        × Scoped l
        × Scoped r

    module _ (round_div : ℤ → ℤ → ℤ)
        (aggregated : AggregateNode → List String → List Row → List Row)
        (sorted : List (AstExpr × Bool) → List String → List Row → List Row) where
      abbrev rows_of : PlanTree → List Row
      rows_of t = rows round_div catalog tables aggregated sorted t

      Fit-append : (s s' : List String) (x y : Row) → Fit s x → Fit s' y → Fit (s ++ s') (x ++ y)
      Fit-append s s' x y h h' = omega (arith, length-append s s', length-append x y, h, h')

      scan_fits :
          (schema : List String) (projection : Option (List AstExpr)) (rs : List Row)
          → ScanScope schema projection
          → All (Fit schema) rs
          → All (Fit (output schema projection)) (scan_rows round_div schema projection rs)
      scan_fits schema none rs scope fit = fit
      scan_fits schema (some es) rs scope fit =
          All-map (Fit schema) (Fit (columns_all es)) (project_row round_div schema es) rs fit
            (λ row h. length-project_row round_div schema row h es scope)

      output-scan_columns :
          (c : ℕ) (projection : Option (List AstExpr))
          → output (names_or_none (catalog c)) projection ≡ scan_columns catalog c projection
      output-scan_columns c none = refl
      output-scan_columns c (some es) = refl

      rows-Fit : (t : PlanTree) → Scoped t → All (Fit (tree_columns catalog t)) (rows_of t)
      unfolding rows
      rows-Fit (leaf s) (fit, filtered, scope) =
          let schema = names_or_none (catalog s.container_id) in
          subst (λ cols. All (Fit cols) (rows_of (leaf s)))
            (output-scan_columns s.container_id s.projection)
            (scan_fits schema s.projection _ scope (
              All-keep (Fit schema) (filter_holds round_div schema s.filter) (tables s.container_id)
                fit))
      rows-Fit (over (projecting p) t) (ids, scoped) =
          All-map (Fit (tree_columns catalog t)) (Fit (columns_all p.identifiers)) _ (rows_of t)
            (rows-Fit t scoped)
            (λ row h. length-project_row round_div (tree_columns catalog t) row h p.identifiers ids)
      rows-Fit (over (filtering f) t) (named, scoped) =
          All-keep (Fit (tree_columns catalog t)) _ (rows_of t) (rows-Fit t scoped)
      rows-Fit (over (aggregating a) t) scoped = absurd scoped
      rows-Fit (over (sorting o) t) scoped = absurd scoped
      rows-Fit (both (joining j) l r) (filtered, apart, scoped_l, scoped_r) =
          All-nested (Fit (tree_columns catalog l)) (Fit (tree_columns catalog r)) _ _ (rows_of l)
            (rows_of r) (rows-Fit l scoped_l) (rows-Fit r scoped_r)
            (λ x y h h'. Fit-append (tree_columns catalog l) (tree_columns catalog r) x y h h')
      rows-Fit (both (crossing c) l r) (filtered, apart, scoped_l, scoped_r) =
          All-nested (Fit (tree_columns catalog l)) (Fit (tree_columns catalog r)) _ _ (rows_of l)
            (rows_of r) (rows-Fit l scoped_l) (rows-Fit r scoped_r)
            (λ x y h h'. Fit-append (tree_columns catalog l) (tree_columns catalog r) x y h h')

      -- A join whose sides were pushed, from the columns and the rows of the sides.
      rows_two :
          (s : Split) (l' r' : PlanTree) (sl sr : List String) (xs ys : List Row)
          → tree_columns catalog l' ≡ sl
          → tree_columns catalog r' ≡ sr
          → rows_of l' ≡ xs
          → rows_of r' ≡ ys
          → rows_of (both (join_of s) l' r')
            ≡ nested
                (λ x y.
                  eqs_hold round_div (sl ++ sr) s.new_eqs (x ++ y)
                  && filter_holds round_div
                      (sl ++ sr)
                      (combine_predicates_with_and s.remaining_predicates)
                      (x ++ y))
                xs
                ys
      unfolding rows
      rows_two s l' r' sl sr xs ys cl cr rl rr = rw (sym cl, sym cr, sym rl, sym rr) refl

      rows_cross :
          (s : Split) (eqs : List (AstExpr × AstExpr)) (l' r' : PlanTree) (sl sr : List String)
          (xs ys : List Row)
          → s.new_eqs ≡ eqs
          → tree_columns catalog l' ≡ sl
          → tree_columns catalog r' ≡ sr
          → rows_of l' ≡ xs
          → rows_of r' ≡ ys
          → rows_of (both (cross_of eqs s) l' r')
            ≡ nested
                (λ x y.
                  eqs_hold round_div (sl ++ sr) s.new_eqs (x ++ y)
                  && filter_holds round_div
                      (sl ++ sr)
                      (combine_predicates_with_and s.remaining_predicates)
                      (x ++ y))
                xs
                ys
      unfolding rows
      rows_cross s [] l' r' sl sr xs ys e cl cr rl rr = rw (e, sym cl, sym cr, sym rl, sym rr) refl
      rows_cross s (p ∷ eqs) l' r' sl sr xs ys e cl cr rl rr =
          rows_two s l' r' sl sr xs ys cl cr rl rr

      pub rows-push :
          (t : PlanTree) (ps : List AstExpr)
          → Scoped t
          → All (λ p. InScope (tree_columns catalog t) p) ps
          → rows_of (push catalog t ps)
            ≡ keep (all_hold round_div (tree_columns catalog t) ps) (rows_of t)
      unfolding push rows
      rows-push (leaf s) ps (fit, filtered, scope) named =
          let schema = names_or_none (catalog s.container_id) in
          let same = output-scan_columns s.container_id s.projection in
          scan_kept round_div schema s.projection s.filter ps (tables s.container_id) scope fit
            (subst (λ cols. All (λ p. InScope cols p) ps) (sym same) named)
          ∙ ap (λ cols. keep (all_hold round_div cols ps) (rows_of (leaf s))) same
      rows-push (over (projecting p) t) ps (ids, scoped) named =
          let cols = tree_columns catalog t in
          let below = rows-push t ps scoped (InScope-below cols p.identifiers ps ids named) in
          rw (tree_columns-push t ps, below)
            (ap (λ kept. map (project_row round_div cols p.identifiers) kept)
                (keep_agree (Fit cols) _ _ (rows_of t) (rows-Fit t scoped) (λ row h.
                  sym (all_hold-project_row round_div cols row h p.identifiers ps ids named)))
              ∙ sym (
                  keep-map (all_hold round_div (columns_all p.identifiers) ps)
                    (project_row round_div cols p.identifiers) (rows_of t)))
      rows-push (over (filtering f) t) ps (filtered, scoped) named =
          let cols = tree_columns catalog t in
          rows-push t (separate_predicates_by_and f.predicate ps) scoped
            (All-separate (λ q. InScope cols q) (InScope-sides cols) f.predicate ps filtered named)
          ∙ keep_agree (Fit cols) _ _ (rows_of t) (rows-Fit t scoped)
              (λ row h. all_hold-separate round_div cols row f.predicate ps ∙ ground arith)
          ∙ sym (
              keep-keep (all_hold round_div cols ps) (holds round_div cols f.predicate) (rows_of t))
      rows-push (over (aggregating a) t) ps scoped named = absurd scoped
      rows-push (over (sorting o) t) ps scoped named = absurd scoped
      rows-push (both (joining j) l r) ps (filtered, apart, scoped_l, scoped_r) named =
          let sl = tree_columns catalog l in
          let sr = tree_columns catalog r in
          let s = placed_in sl sr j.filter ps j.eqs in
          let scoped = placed_in-ScopedSplit sl sr j.filter ps j.eqs filtered named in
          rows_two s (push catalog l s.left_predicates) (push catalog r s.right_predicates) sl sr _
            _ (tree_columns-push l s.left_predicates) (tree_columns-push r s.right_predicates)
            (rows-push l s.left_predicates scoped_l scoped.lefts)
            (rows-push r s.right_predicates scoped_r scoped.rights)
          ∙ two_kept round_div sl sr j.filter ps j.eqs (rows_of l) (rows_of r) apart filtered named
              (rows-Fit l scoped_l) (rows-Fit r scoped_r)
      rows-push (both (crossing c) l r) ps (filtered, apart, scoped_l, scoped_r) named =
          let sl = tree_columns catalog l in
          let sr = tree_columns catalog r in
          let s = placed_in sl sr c.filter ps [] in
          let scoped = placed_in-ScopedSplit sl sr c.filter ps [] filtered named in
          rows_cross s s.new_eqs (push catalog l s.left_predicates)
            (push catalog r s.right_predicates) sl sr _ _ refl
            (tree_columns-push l s.left_predicates) (tree_columns-push r s.right_predicates)
            (rows-push l s.left_predicates scoped_l scoped.lefts)
            (rows-push r s.right_predicates scoped_r scoped.rights)
          ∙ two_kept round_div sl sr c.filter ps [] (rows_of l) (rows_of r) apart filtered named
              (rows-Fit l scoped_l) (rows-Fit r scoped_r)

-- On a well-formed plan that represents a tree, with fuel for its height, the rule returns, without a panic,
-- a well-formed plan whose tree computes the same rows in the same order, under these conditions: no
-- expression that the rule reads is bound, and the catalog knows every table that is scanned without a
-- projection; the tree has no aggregate and no sort; every filter (of a
-- node, a join or a scan) is over columns of what is below it;
-- projections are to plain columns of what is below; the two sides of a join have no column name in common;
-- and the rows of the scanned tables have the length of their schemas. What a tree computes is read
-- leniently: a row on which a predicate has an error, a panic or no Boolean value counts as one on which it
-- does not hold, where the program would stop with the error.
pub apply-rows :
    (catalog : ℕ → Option (List String)) (tables : ℕ → List Row) (round_div : ℤ → ℤ → ℤ)
    (aggregated : AggregateNode → List String → List Row → List Row)
    (sorted : List (AstExpr × Bool) → List String → List Row → List Row) (lp : LogicalPlan)
    (fuel : ℕ) (t : PlanTree)
    → Represents lp t
    → Ready catalog t
    → Scoped catalog tables t
    → height t ≤ fuel
    → (lp' : LogicalPlan) × (t' : PlanTree) × (apply catalog lp fuel ≡ ok lp')
      × Represents lp' t'
      × (rows round_div catalog tables aggregated sorted t'
          ≡ rows round_div catalog tables aggregated sorted t)
apply-rows catalog tables round_div aggregated sorted lp fuel t rep ready scoped h =
    let (lp', done, rep') = apply-push catalog lp fuel t rep ready h in
    (
      lp',
      push catalog t [],
      done,
      rep',
      rows-push catalog tables round_div aggregated sorted t [] scoped tt
          ∙ keep_all (rows round_div catalog tables aggregated sorted t),
    )
