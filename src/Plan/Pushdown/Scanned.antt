-- ===== src/Plan/Pushdown/Scanned.antt =====
-- A scan that takes predicates: the rows that its new filter keeps.
use crustydb_labs_cs378_spri.Prelude.{
  List, Option, none, some, String, string_eq, map, ◌≡◌, sym, ap, ◌∙◌, length, arith,
}
use crustydb_labs_cs378_spri.Prelude.Int.{ℤ}
use crustydb_labs_cs378_spri.Expr.Ast.{AstExpr}
use crustydb_labs_cs378_spri.Plan.Pushdown.{separate_filter, combine_predicates_with_and}
use crustydb_labs_cs378_spri.Plan.Pushdown.Spec.{columns_all}
use crustydb_labs_cs378_spri.Plan.Pushdown.Truth.{
  InScope, Idents, all_hold-separate_filter, filter_holds-combine, all_hold-project_row,
}
use crustydb_labs_cs378_spri.Plan.Rows.{Row, all_hold, filter_holds, project_row, scan_rows}
use crustydb_labs_cs378_spri.Plan.Rows.Keep.{keep, keep-keep, keep_agree, keep-map, All}

abbrev pub Fit : List String → Row → Type 0
Fit schema row = length row ≡ length schema

abbrev pub ScanScope : List String → Option (List AstExpr) → Type 0
ScanScope schema none = Unit {0}
ScanScope schema (some es) = Idents schema es

abbrev pub output : List String → Option (List AstExpr) → List String
output schema none = schema
output schema (some es) = columns_all es

module _ (round_div : ℤ → ℤ → ℤ) (schema : List String) where
  -- A scan with the predicates after its own filter.
  pub scan_kept :
      (projection : Option (List AstExpr)) (f : Option AstExpr) (ps : List AstExpr) (rs : List Row)
      → ScanScope schema projection
      → All (Fit schema) rs
      → All (λ p. InScope (output schema projection) p) ps
      → scan_rows round_div schema projection (
          keep
            (filter_holds round_div schema (combine_predicates_with_and (separate_filter f ps)))
            rs)
        ≡ keep
            (all_hold round_div (output schema projection) ps)
            (scan_rows round_div schema projection (keep (filter_holds round_div schema f) rs))
  scan_kept none f ps rs scope fit named =
      keep_agree (Fit schema) _ _ rs fit (λ row h.
        filter_holds-combine round_div schema row (separate_filter f ps)
        ∙ all_hold-separate_filter round_div schema row f ps
        ∙ ground arith)
      ∙ sym (keep-keep (all_hold round_div schema ps) (filter_holds round_div schema f) rs)
  scan_kept (some es) f ps rs scope fit named =
      ap (λ kept. map (project_row round_div schema es) kept)
        (keep_agree (Fit schema) _ _ rs fit (λ row h.
            filter_holds-combine round_div schema row (separate_filter f ps)
            ∙ all_hold-separate_filter round_div schema row f ps
            ∙ rw⁻¹ (all_hold-project_row round_div schema row h es ps scope named) (ground arith))
          ∙ sym (
              keep-keep
                (λ row.
                  all_hold round_div (columns_all es) ps (project_row round_div schema es row))
                (filter_holds round_div schema f) rs))
      ∙ sym (
          keep-map (all_hold round_div (columns_all es) ps) (project_row round_div schema es)
            (keep (filter_holds round_div schema f) rs))
