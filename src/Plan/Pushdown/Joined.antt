-- ===== src/Plan/Pushdown/Joined.antt =====
-- A join whose sides take predicates: the rows of its loops.
use crustydb_labs_cs378_spri.Prelude.{
  ◌&&◌, List, ◌++◌, Option, String, string_eq, ◌≡◌, sym, ap, ◌∙◌, arith,
}
use crustydb_labs_cs378_spri.Prelude.Int.{ℤ}
use crustydb_labs_cs378_spri.Expr.Ast.{AstExpr}
use crustydb_labs_cs378_spri.Plan.Pushdown.{
  Split, is_subset, separate_filter, combine_predicates_with_and,
}
use crustydb_labs_cs378_spri.Plan.Pushdown.Spec.{columns, start_with, all_placed}
use crustydb_labs_cs378_spri.Plan.Pushdown.Truth.{
  InScope, FilterInScope, Apart, all_hold-separate_filter, filter_holds-combine,
}
use crustydb_labs_cs378_spri.Plan.Pushdown.Scope.{InScope-separate_filter, InScope-Named}
use crustydb_labs_cs378_spri.Plan.Pushdown.Sides.{
  ScopedSplit, ScopedSplit-all_placed, split_holds-all_placed,
}
use crustydb_labs_cs378_spri.Plan.Rows.{Row, all_hold, filter_holds, eqs_hold}
use crustydb_labs_cs378_spri.Plan.Rows.Keep.{
  keep, All, nested, nested-keep, keep-nested, nested_agree,
}
use crustydb_labs_cs378_spri.Plan.Pushdown.Scanned.{Fit}

-- The categories of the predicates over a join with a filter.
abbrev pub placed_in :
    List String → List String → Option AstExpr → List AstExpr → List (AstExpr × AstExpr) → Split
placed_in sl sr f ps eqs =
    all_placed (λ p. is_subset (columns p) sl) (λ p. is_subset (columns p) sr)
      (separate_filter f ps) (start_with eqs)

pub placed_in-ScopedSplit :
    (sl sr : List String) (f : Option AstExpr) (ps : List AstExpr) (eqs : List (AstExpr × AstExpr))
    → FilterInScope (sl ++ sr) f
    → All (λ p. InScope (sl ++ sr) p) ps
    → ScopedSplit sl sr (placed_in sl sr f ps eqs)
placed_in-ScopedSplit sl sr f ps eqs filtered named =
    ScopedSplit-all_placed sl sr (separate_filter f ps) (start_with eqs)
      (InScope-Named (sl ++ sr) (separate_filter f ps)
        (InScope-separate_filter (sl ++ sr) f ps filtered named))
      (record { lefts = tt; rights = tt })

module _ (round_div : ℤ → ℤ → ℤ) where
  -- The loops of a join over what its sides keep, with the rest of the predicates, are the loops of the
  -- join with all the predicates after it.
  pub two_kept :
      (sl sr : List String) (f : Option AstExpr) (ps : List AstExpr)
      (eqs : List (AstExpr × AstExpr)) (xs ys : List Row)
      → Apart sl sr
      → FilterInScope (sl ++ sr) f
      → All (λ p. InScope (sl ++ sr) p) ps
      → All (Fit sl) xs
      → All (Fit sr) ys
      → nested
          (λ x y.
            eqs_hold round_div (sl ++ sr) (placed_in sl sr f ps eqs).new_eqs (x ++ y)
            && filter_holds round_div
                (sl ++ sr)
                (combine_predicates_with_and (placed_in sl sr f ps eqs).remaining_predicates)
                (x ++ y))
          (keep (all_hold round_div sl (placed_in sl sr f ps eqs).left_predicates) xs)
          (keep (all_hold round_div sr (placed_in sl sr f ps eqs).right_predicates) ys)
        ≡ keep (all_hold round_div (sl ++ sr) ps) (
            nested
              (λ x y.
                eqs_hold round_div (sl ++ sr) eqs (x ++ y)
                && filter_holds round_div (sl ++ sr) f (x ++ y))
              xs
              ys)
  two_kept sl sr f ps eqs xs ys apart filtered named fit_l fit_r =
      let s = placed_in sl sr f ps eqs in
      let qs_named =
        InScope-Named (sl ++ sr) (separate_filter f ps)
          (InScope-separate_filter (sl ++ sr) f ps filtered named) in
      nested-keep (all_hold round_div sl s.left_predicates)
        (all_hold round_div sr s.right_predicates) _ xs ys
      ∙ nested_agree (Fit sl) (Fit sr) _
          (λ x y.
            eqs_hold round_div (sl ++ sr) eqs (x ++ y)
            && filter_holds round_div (sl ++ sr) f (x ++ y)
            && all_hold round_div (sl ++ sr) ps (x ++ y))
          xs ys fit_l fit_r
          (λ x y h h'.
            ap
              (λ rest.
                all_hold round_div sl s.left_predicates x
                && (all_hold round_div sr s.right_predicates y
                    && (eqs_hold round_div (sl ++ sr) s.new_eqs (x ++ y) && rest)))
              (filter_holds-combine round_div (sl ++ sr) (x ++ y) s.remaining_predicates)
            ∙ split_holds-all_placed sl sr round_div apart x y h (separate_filter f ps)
                (start_with eqs) qs_named
            ∙ rw (all_hold-separate_filter round_div (sl ++ sr) (x ++ y) f ps) (ground arith))
      ∙ sym (keep-nested (all_hold round_div (sl ++ sr) ps) _ xs ys)
