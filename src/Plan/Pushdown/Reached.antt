-- ===== src/Plan/Pushdown/Reached.antt =====
-- The pushdown on trees by the loops of optimizer/src/pushdown_predicate.rs reaches the tree that is wanted.
use crustydb_labs_cs378_spri.Prelude.{
  ℕ, not, ◌≡◌, refl, ap, ◌∙◌, fun_ext, List, [], ◌++◌, Option, String, string_eq,
}
use crustydb_labs_cs378_spri.Expr.Ast.{AstExpr}
use crustydb_labs_cs378_spri.Plan.Tree.{
  projecting, filtering, aggregating, sorting, joining, crossing, PlanTree, leaf, over, both,
}
use crustydb_labs_cs378_spri.Plan.Rows.Keep.{keep}
use crustydb_labs_cs378_spri.Plan.Pushdown.{
  combine_predicates_with_and, separate_predicates_by_and, separate_filter,
}
use crustydb_labs_cs378_spri.Plan.Pushdown.Spec.{
  columns, tree_columns, all_placed, start_with, having_placed, join_of, cross_of, fits, split,
  push,
}
use crustydb_labs_cs378_spri.Plan.Pushdown.Wanted.{
  filter_conjuncts, all_of, only_right, at_join, covers, wanted,
}
use crustydb_labs_cs378_spri.Plan.Pushdown.Settled.{
  separate-conjuncts, separate_filter-conjuncts, combine-all_of, is_subset-covered,
  having_placed-keep, joined_by-cross_of, settled, all_placed-settled,
}

module _ (catalog : ℕ → Option (List String)) where
  fits-covers : (t : PlanTree) → fits catalog t ≡ covers catalog t
  fits-covers t = fun_ext (λ p. is_subset-covered (columns p) (tree_columns catalog t))

  split-settled :
      (l r : PlanTree) (f : Option AstExpr) (ps : List AstExpr) (eqs : List (AstExpr × AstExpr))
      → split catalog l r (separate_filter f ps) eqs
        ≡ settled (covers catalog l) (covers catalog r) (ps ++ filter_conjuncts f) (start_with eqs)
  split-settled l r f ps eqs =
      ap (λ fl. all_placed fl (fits catalog r) (separate_filter f ps) (start_with eqs))
        (fits-covers l)
      ∙ ap (λ fr. all_placed (covers catalog l) fr (separate_filter f ps) (start_with eqs))
          (fits-covers r)
      ∙ ap (λ qs. all_placed (covers catalog l) (covers catalog r) qs (start_with eqs))
          (separate_filter-conjuncts f ps)
      ∙ all_placed-settled (covers catalog l) (covers catalog r) (ps ++ filter_conjuncts f)
          (start_with eqs)

  -- The pushdown that follows the loops of the code gives the tree that is wanted.
  pub push-wanted : (t : PlanTree) (ps : List AstExpr) → push catalog t ps ≡ wanted catalog t ps
  unfolding push wanted
  push-wanted (leaf s) ps =
      ap (λ f. leaf (record s { filter = f }))
        (combine-all_of (separate_filter s.filter ps)
          ∙ ap all_of (separate_filter-conjuncts s.filter ps))
  push-wanted (over (projecting p) t) ps = ap (λ u. over (projecting p) u) (push-wanted t ps)
  push-wanted (over (filtering f) t) ps =
      push-wanted t (separate_predicates_by_and f.predicate ps)
      ∙ ap (λ qs. wanted catalog t qs) (separate-conjuncts f.predicate ps)
  push-wanted (over (aggregating a) t) ps =
      ap
        (λ s.
          over (aggregating (record a { having = combine_predicates_with_and s.0 }))
            (push catalog t s.1))
        (ap (λ c. having_placed c (separate_filter a.having ps) ([], [])) (fits-covers t)
          ∙ ap (λ qs. having_placed (covers catalog t) qs ([], []))
              (separate_filter-conjuncts a.having ps)
          ∙ having_placed-keep (covers catalog t) (ps ++ filter_conjuncts a.having) [] [])
      ∙ ap
          (λ h.
            over (aggregating (record a { having = h }))
              (push catalog t (keep (covers catalog t) (ps ++ filter_conjuncts a.having))))
          (combine-all_of _)
      ∙ ap
          (λ u.
            over
              (aggregating (record a {
                having =
                    all_of (keep (λ p. not (covers catalog t p)) (ps ++ filter_conjuncts a.having));
              }))
              u)
          (push-wanted t (keep (covers catalog t) (ps ++ filter_conjuncts a.having)))
  push-wanted (over (sorting o) t) ps = ap (λ u. over (sorting o) u) (push-wanted t ps)
  push-wanted (both (joining j) l r) ps =
      ap
        (λ s.
          both (join_of s) (push catalog l s.left_predicates) (push catalog r s.right_predicates))
        (split-settled l r j.filter ps j.eqs)
      ∙ rw
          (
            combine-all_of
                (at_join (covers catalog l) (covers catalog r) (ps ++ filter_conjuncts j.filter)),
            push-wanted l (keep (covers catalog l) (ps ++ filter_conjuncts j.filter)),
            push-wanted r (
                keep (only_right (covers catalog l) (covers catalog r))
                  (ps ++ filter_conjuncts j.filter)),
          )
          refl
  push-wanted (both (crossing c) l r) ps =
      ap
        (λ s.
          both (cross_of s.new_eqs s) (push catalog l s.left_predicates)
            (push catalog r s.right_predicates))
        (split-settled l r c.filter ps [])
      ∙ rw
          (
            push-wanted l (keep (covers catalog l) (ps ++ filter_conjuncts c.filter)),
            push-wanted r (
                keep (only_right (covers catalog l) (covers catalog r))
                  (ps ++ filter_conjuncts c.filter)),
          )
          (ap
            (λ o.
              both o (wanted catalog l (keep (covers catalog l) (ps ++ filter_conjuncts c.filter)))
                (wanted catalog r (
                  keep (only_right (covers catalog l) (covers catalog r))
                    (ps ++ filter_conjuncts c.filter))))
            (joined_by-cross_of _
              (settled (covers catalog l) (covers catalog r) (ps ++ filter_conjuncts c.filter)
                (start_with []))
              refl))
