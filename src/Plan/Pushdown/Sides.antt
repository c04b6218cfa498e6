-- ===== src/Plan/Pushdown/Sides.antt =====
-- The predicates over a join, sorted into categories, on the joined rows and on the rows of the sides.
use crustydb_labs_cs378_spri.Prelude.{
  Bool, ◌&&◌, List, [], ◌∷◌, ◌++◌, Option, none, some, String, string_eq, ◌≡◌, refl, ◌∙◌, length,
  inl, inr, Bool-cases, arith,
}
use crustydb_labs_cs378_spri.Prelude.Int.{ℤ}
use crustydb_labs_cs378_spri.Expr.Field.{and, eq, neq, gt, gte, lt, lte, or}
use crustydb_labs_cs378_spri.Expr.Ast.{AstExpr, literal, ident, alias, math, boolean, agg, col_idx}
use crustydb_labs_cs378_spri.Plan.Pushdown.{Split, equality_sides, is_subset}
use crustydb_labs_cs378_spri.Plan.Pushdown.Spec.{columns, Named, placed, place_equality, all_placed}
use crustydb_labs_cs378_spri.Plan.Pushdown.Truth.{
  InScope, Apart, holds-eq_comm, all_hold-snoc, eqs_hold-snoc, holds-left, holds-right,
}
use crustydb_labs_cs378_spri.Plan.Rows.{Row, holds, all_hold, eqs_hold}
use crustydb_labs_cs378_spri.Plan.Rows.Keep.{All, All-append}

-- An equality is the comparison of its sides.
boolean-equality_sides :
    (p : AstExpr) {a b : AstExpr} → equality_sides p ≡ some (a, b) → p ≡ boolean eq a b
boolean-equality_sides (literal f) e = cc
boolean-equality_sides (ident i) e = cc
boolean-equality_sides (alias i p) e = cc
boolean-equality_sides (math op l r) e = cc
boolean-equality_sides (boolean eq l r) e = ground (arith, e)
boolean-equality_sides (boolean neq l r) e = cc
boolean-equality_sides (boolean gt l r) e = cc
boolean-equality_sides (boolean gte l r) e = cc
boolean-equality_sides (boolean lt l r) e = cc
boolean-equality_sides (boolean lte l r) e = cc
boolean-equality_sides (boolean and l r) e = cc
boolean-equality_sides (boolean or l r) e = cc
boolean-equality_sides (agg op p) e = cc
boolean-equality_sides (col_idx i) e = cc

module _ (left right : List String) where
  abbrev fits_l : AstExpr → Bool
  fits_l p = is_subset (columns p) left

  abbrev fits_r : AstExpr → Bool
  fits_r p = is_subset (columns p) right

  -- What goes to a side is in its scope.
  pub record ScopedSplit (s : Split) : Type 0 where
    pub lefts : All (λ p. InScope left p) s.left_predicates
    pub rights : All (λ p. InScope right p) s.right_predicates

  ScopedSplit-place_equality :
      (sides : Option (AstExpr × AstExpr)) (p : AstExpr) (s : Split)
      → ScopedSplit s
      → ScopedSplit (place_equality fits_l fits_r sides p s)
  ScopedSplit-place_equality none p s n = record { lefts = n.lefts; rights = n.rights }
  ScopedSplit-place_equality (some (a, b)) p s n = elim (Bool-cases (fits_l a && fits_r b)) [
    | inl yes_ ↦ rw (yes_) (record { lefts = n.lefts; rights = n.rights })
    | inr no_ ↦ elim (Bool-cases (fits_r a && fits_l b)) [
      | inl yes_ ↦ rw (no_, yes_) (record { lefts = n.lefts; rights = n.rights })
      | inr no' ↦ rw (no_, no') (record { lefts = n.lefts; rights = n.rights })
    ]
  ]

  ScopedSplit-placed :
      (p : AstExpr) (s : Split) → Named p → ScopedSplit s → ScopedSplit (placed fits_l fits_r p s)
  ScopedSplit-placed p s m n = elim (Bool-cases (fits_l p)) [
    | inl yes_ ↦ rw (yes_) (record {
      lefts = All-append (λ q. InScope left q) s.left_predicates (p ∷ []) n.lefts ((m, yes_), tt);
      rights = n.rights;
    })
    | inr no_ ↦ elim (Bool-cases (fits_r p)) [
      | inl yes_ ↦
          rw (no_, yes_)
            (record {
              lefts = n.lefts;
              rights =
                  All-append (λ q. InScope right q) s.right_predicates (p ∷ []) n.rights
                    ((m, yes_), tt);
            })
      | inr no' ↦ rw (no_, no') (ScopedSplit-place_equality (equality_sides p) p s n)
    ]
  ]

  pub ScopedSplit-all_placed :
      (ps : List AstExpr) (s : Split)
      → All (λ p. Named p) ps
      → ScopedSplit s
      → ScopedSplit (all_placed fits_l fits_r ps s)
  ScopedSplit-all_placed [] s m n = n
  ScopedSplit-all_placed (p ∷ ps) s (mp, m) n =
      ScopedSplit-all_placed ps (placed fits_l fits_r p s) m (ScopedSplit-placed p s mp n)

  module _ (round_div : ℤ → ℤ → ℤ) (apart : Apart left right) (x y : Row)
      (fit : length x ≡ length left) where
    -- Each category where it is tested: on a side, or on the joined row.
    abbrev pub split_holds : Split → Bool
    split_holds s =
        all_hold round_div left s.left_predicates x
        && (all_hold round_div right s.right_predicates y
            && (eqs_hold round_div (left ++ right) s.new_eqs (x ++ y)
                && all_hold round_div (left ++ right) s.remaining_predicates (x ++ y)))

    split_holds-place_equality :
        (sides : Option (AstExpr × AstExpr)) (p : AstExpr) (s : Split)
        → ((a b : AstExpr) → sides ≡ some (a, b) → p ≡ boolean eq a b)
        → split_holds (place_equality fits_l fits_r sides p s)
          ≡ (split_holds s && holds round_div (left ++ right) p (x ++ y))
    split_holds-place_equality none p s same =
        rw (all_hold-snoc round_div (left ++ right) (x ++ y) s.remaining_predicates p)
          (ground arith)
    split_holds-place_equality (some (a, b)) p s same = elim (Bool-cases (fits_l a && fits_r b)) [
      | inl yes_ ↦
          rw (yes_, eqs_hold-snoc round_div (left ++ right) (x ++ y) s.new_eqs a b, same a b refl)
            (ground arith)
      | inr no_ ↦ elim (Bool-cases (fits_r a && fits_l b)) [
        | inl yes_ ↦
            rw
              (
                no_,
                yes_,
                eqs_hold-snoc round_div (left ++ right) (x ++ y) s.new_eqs b a,
                same a b refl,
                holds-eq_comm round_div (left ++ right) (x ++ y) b a,
              )
              (ground arith)
        | inr no' ↦
            rw (no_, no', all_hold-snoc round_div (left ++ right) (x ++ y) s.remaining_predicates p)
              (ground arith)
      ]
    ]

    split_holds-placed :
        (p : AstExpr) (s : Split)
        → Named p
        → split_holds (placed fits_l fits_r p s)
          ≡ (split_holds s && holds round_div (left ++ right) p (x ++ y))
    split_holds-placed p s m = elim (Bool-cases (fits_l p)) [
      | inl yes_ ↦
          rw
            (
              yes_,
              all_hold-snoc round_div left x s.left_predicates p,
              holds-left round_div left right x y fit p (m, yes_),
            )
            (ground arith)
      | inr no_ ↦ elim (Bool-cases (fits_r p)) [
        | inl yes_ ↦
            rw
              (
                no_,
                yes_,
                all_hold-snoc round_div right y s.right_predicates p,
                holds-right round_div left right x y fit p apart (m, yes_),
              )
              (ground arith)
        | inr no' ↦
            rw (no_, no')
              (split_holds-place_equality (equality_sides p) p s
                (λ a b sides. boolean-equality_sides p sides))
      ]
    ]

    -- Sorted into categories, the predicates hold together where they all held on the joined row.
    pub split_holds-all_placed :
        (ps : List AstExpr) (s : Split)
        → All (λ p. Named p) ps
        → split_holds (all_placed fits_l fits_r ps s)
          ≡ (split_holds s && all_hold round_div (left ++ right) ps (x ++ y))
    split_holds-all_placed [] s m = ground arith
    split_holds-all_placed (p ∷ ps) s (mp, m) =
        split_holds-all_placed ps (placed fits_l fits_r p s) m
        ∙ rw (split_holds-placed p s mp) (ground arith)
