-- ===== src/Plan/Pushdown/Truth.antt =====
-- The truth of predicates that the optimizer takes apart, puts together and moves.
use crustydb_labs_cs378_spri.Prelude.{
  true, false, ◌&&◌, List, [], ◌∷◌, ◌++◌, Option, none, some, String, string_eq, ◌==◌, contains,
  Outcome, ok, err, panic, ◌>>=◌, unwrap_result, ◌≡◌, refl, sym, ap, ◌∙◌, length, inl, inr,
  Bool-cases, arith, subst,
}
use crustydb_labs_cs378_spri.Prelude.Int.{ℤ}
use crustydb_labs_cs378_spri.Expr.Field.{
  Field, int, string, decimal, date, bool, null, and, eq, neq, gt, gte, lt, lte, or, and_field,
  eq_field,
}
use crustydb_labs_cs378_spri.Expr.Field.Order.{eq_field_iff}
use crustydb_labs_cs378_spri.Expr.Ast.{AstExpr, literal, ident, alias, math, boolean, agg, col_idx}
use crustydb_labs_cs378_spri.Expr.Bytecode.{boolean_field}
use crustydb_labs_cs378_spri.Expr.Meaning.{meaning}
use crustydb_labs_cs378_spri.Plan.Pushdown.{
  reduce_and, combine_predicates_with_and, separate_predicates_by_and, separate_filter, is_subset,
}
use crustydb_labs_cs378_spri.Plan.Pushdown.Spec.{columns, columns_all, Named}
use crustydb_labs_cs378_spri.Plan.Rows.{
  Row, is_true, value_or_null, holds, all_hold, filter_holds, eqs_hold, project_row,
}
use crustydb_labs_cs378_spri.Plan.Rows.Keep.{All}
use crustydb_labs_cs378_spri.Plan.Rows.Lookup.{
  lookup, Agree-is_subset, meaning-Agree, lookup-left, lookup-right, lookup-ok, meaning-ident,
}

and_true :
    (a b : Outcome Field)
    → is_true (a >>= (λ x. b >>= (λ y. unwrap_result (boolean_field and x y))))
      ≡ (is_true a && is_true b)
unfolding boolean_field and_field
and_true panic b = refl
and_true (err e) b = refl
and_true (ok f) panic = ground (arith, no_right f)
  where
    no_right : (g : Field) → (is_true (ok g) && false) ≡ false
    no_right g = ground arith
and_true (ok f) (err e) = ground arith
and_true (ok (bool a)) (ok (bool b)) = refl
and_true (ok (bool a)) (ok (int b)) = ground arith
and_true (ok (bool a)) (ok (string b)) = ground arith
and_true (ok (bool a)) (ok (decimal b s)) = ground arith
and_true (ok (bool a)) (ok (date b)) = ground arith
and_true (ok (bool a)) (ok null) = ground arith
and_true (ok (int a)) (ok g) = refl
and_true (ok (string a)) (ok g) = refl
and_true (ok (decimal a s)) (ok g) = refl
and_true (ok (date a)) (ok g) = refl
and_true (ok null) (ok g) = refl

eq_field_comm : (f g : Field) → eq_field f g ≡ eq_field g f
eq_field_comm f g = ground (arith, eq_field_iff f g, eq_field_iff g f, eq_field f g, eq_field g f)

eq_true_comm :
    (a b : Outcome Field)
    → is_true (a >>= (λ x. b >>= (λ y. unwrap_result (boolean_field eq x y))))
      ≡ is_true (b >>= (λ y. a >>= (λ x. unwrap_result (boolean_field eq y x))))
unfolding boolean_field
eq_true_comm panic panic = refl
eq_true_comm panic (err e) = refl
eq_true_comm panic (ok g) = refl
eq_true_comm (err e) panic = refl
eq_true_comm (err e) (err e') = refl
eq_true_comm (err e) (ok g) = refl
eq_true_comm (ok f) panic = refl
eq_true_comm (ok f) (err e) = refl
eq_true_comm (ok f) (ok g) = eq_field_comm f g

module _ (round_div : ℤ → ℤ → ℤ) (s : List String) (row : Row) where
  holds-and :
      (l r : AstExpr)
      → holds round_div s (boolean and l r) row
        ≡ (holds round_div s l row && holds round_div s r row)
  unfolding meaning
  holds-and l r = and_true (meaning round_div s row l) (meaning round_div s row r)

  pub holds-eq_comm :
      (l r : AstExpr)
      → holds round_div s (boolean eq l r) row ≡ holds round_div s (boolean eq r l) row
  unfolding meaning
  holds-eq_comm l r = eq_true_comm (meaning round_div s row l) (meaning round_div s row r)

  pub all_hold-snoc :
      (ps : List AstExpr) (p : AstExpr)
      → all_hold round_div s (ps ++ p ∷ []) row
        ≡ (all_hold round_div s ps row && holds round_div s p row)
  all_hold-snoc [] p = ground arith
  all_hold-snoc (x ∷ ps) p = rw (all_hold-snoc ps p) (ground arith)

  pub eqs_hold-snoc :
      (eqs : List (AstExpr × AstExpr)) (a b : AstExpr)
      → eqs_hold round_div s (eqs ++ (a, b) ∷ []) row
        ≡ (eqs_hold round_div s eqs row && holds round_div s (boolean eq a b) row)
  eqs_hold-snoc [] a b = ground arith
  eqs_hold-snoc ((x, y) ∷ eqs) a b = rw (eqs_hold-snoc eqs a b) (ground arith)

  -- Taking a predicate apart at its `And`s keeps its truth.
  pub all_hold-separate :
      (p : AstExpr) (ps : List AstExpr)
      → all_hold round_div s (separate_predicates_by_and p ps) row
        ≡ (all_hold round_div s ps row && holds round_div s p row)
  unfolding separate_predicates_by_and
  all_hold-separate (literal f) ps = all_hold-snoc ps _
  all_hold-separate (ident i) ps = all_hold-snoc ps _
  all_hold-separate (alias i e) ps = all_hold-snoc ps _
  all_hold-separate (math op l r) ps = all_hold-snoc ps _
  all_hold-separate (boolean and l r) ps =
      all_hold-separate r (separate_predicates_by_and l ps)
      ∙ rw (all_hold-separate l ps, holds-and l r) (ground arith)
  all_hold-separate (boolean eq l r) ps = all_hold-snoc ps _
  all_hold-separate (boolean neq l r) ps = all_hold-snoc ps _
  all_hold-separate (boolean gt l r) ps = all_hold-snoc ps _
  all_hold-separate (boolean gte l r) ps = all_hold-snoc ps _
  all_hold-separate (boolean lt l r) ps = all_hold-snoc ps _
  all_hold-separate (boolean lte l r) ps = all_hold-snoc ps _
  all_hold-separate (boolean or l r) ps = all_hold-snoc ps _
  all_hold-separate (agg op e) ps = all_hold-snoc ps _
  all_hold-separate (col_idx i) ps = all_hold-snoc ps _

  pub all_hold-separate_filter :
      (f : Option AstExpr) (ps : List AstExpr)
      → all_hold round_div s (separate_filter f ps) row
        ≡ (all_hold round_div s ps row && filter_holds round_div s f row)
  all_hold-separate_filter none ps = ground arith
  all_hold-separate_filter (some p) ps = all_hold-separate p ps

  holds-reduce_and :
      (a : AstExpr) (ps : List AstExpr)
      → holds round_div s (reduce_and a ps) row
        ≡ (holds round_div s a row && all_hold round_div s ps row)
  unfolding reduce_and
  holds-reduce_and a [] = ground arith
  holds-reduce_and a (b ∷ ps) =
      holds-reduce_and (boolean and a b) ps ∙ rw (holds-and a b) (ground arith)

  -- Predicates that are put together hold where each of them does.
  pub filter_holds-combine :
      (ps : List AstExpr)
      → filter_holds round_div s (combine_predicates_with_and ps) row ≡ all_hold round_div s ps row
  unfolding combine_predicates_with_and
  filter_holds-combine [] = refl
  filter_holds-combine (a ∷ ps) = holds-reduce_and a ps

-- A predicate before it is bound, over columns of the schema.
abbrev pub InScope : List String → AstExpr → Type 0
InScope schema p = Named p × (is_subset (columns p) schema ≡ true)

abbrev pub FilterInScope : List String → Option AstExpr → Type 0
FilterInScope schema none = Unit {0}
FilterInScope schema (some p) = InScope schema p

-- No name of the second list is in the first one.
abbrev pub Apart : List String → List String → Type 0
Apart s [] = Unit {0}
Apart s (x ∷ xs) = (contains s x ≡ false) × Apart s xs

Apart-contains :
    (s xs : List String) (x : String) → Apart s xs → contains xs x ≡ true → contains s x ≡ false
unfolding contains
Apart-contains s [] x a h = cc
Apart-contains s (y ∷ xs) x (out, a) h = elim (Bool-cases (y == x)) [
  | inl yes_ ↦ subst (λ z. contains s z ≡ false) ((string_eq.beq_iff y x).0 yes_) out
  | inr no_ ↦ Apart-contains s xs x a (ground (arith, h, no_))
]

module _ (round_div : ℤ → ℤ → ℤ) (s s' : List String) (x y : Row) (fit : length x ≡ length s) where
  -- A predicate of one side of a join, on the joined row.
  pub holds-left :
      (p : AstExpr) → InScope s p → holds round_div (s ++ s') p (x ++ y) ≡ holds round_div s p x
  holds-left p (named, sub) = ap is_true (
      meaning-Agree (s ++ s') s (x ++ y) x round_div p named (
        Agree-is_subset (s ++ s') s (x ++ y) x (columns p) s sub
          (λ n in_s. lookup-left s s' x y n fit in_s)))

  pub holds-right :
      (p : AstExpr)
      → Apart s s'
      → InScope s' p
      → holds round_div (s ++ s') p (x ++ y) ≡ holds round_div s' p y
  holds-right p apart (named, sub) = ap is_true (
      meaning-Agree (s ++ s') s' (x ++ y) y round_div p named (
        Agree-is_subset (s ++ s') s' (x ++ y) y (columns p) s' sub
          (λ n in_s. lookup-right s s' x y n fit (Apart-contains s s' n apart in_s))))

-- A projection to columns of the schema.
abbrev pub Idents : List String → List AstExpr → Type 0
Idents s [] = Unit {0}
Idents s (ident n ∷ es) = (contains s n ≡ true) × Idents s es
Idents s (_ ∷ es) = ⊥

module _ (round_div : ℤ → ℤ → ℤ) (s : List String) (row : Row) (fit : length row ≡ length s) where
  lookup-project_row :
      (es : List AstExpr) (x : String)
      → Idents s es
      → contains (columns_all es) x ≡ true
      → lookup (columns_all es) (project_row round_div s es row) x ≡ lookup s row x
  unfolding contains
  lookup-project_row [] x ids h = cc
  lookup-project_row (ident n ∷ es) x (in_s, ids) h =
      let (v, found) = lookup-ok s row n fit in_s in
      elim (Bool-cases (n == x)) [
        | inl yes_ ↦ rw (yes_) (
            ap (λ o. ok (value_or_null o)) (meaning-ident round_div s row n ∙ found)
            ∙ sym found
            ∙ ap (λ z. lookup s row z) ((string_eq.beq_iff n x).0 yes_))
        | inr no_ ↦ rw (no_) (lookup-project_row es x ids (ground (arith, h, no_)))
      ]
  lookup-project_row (literal f ∷ es) x ids h = absurd ids
  lookup-project_row (alias n e ∷ es) x ids h = absurd ids
  lookup-project_row (math op l r ∷ es) x ids h = absurd ids
  lookup-project_row (boolean op l r ∷ es) x ids h = absurd ids
  lookup-project_row (agg op e ∷ es) x ids h = absurd ids
  lookup-project_row (col_idx i ∷ es) x ids h = absurd ids

  -- A predicate over the columns that a projection keeps, on the row before it.
  pub holds-project_row :
      (es : List AstExpr) (p : AstExpr)
      → Idents s es
      → InScope (columns_all es) p
      → holds round_div (columns_all es) p (project_row round_div s es row)
        ≡ holds round_div s p row
  holds-project_row es p ids (named, sub) = ap is_true (
      meaning-Agree (columns_all es) s (project_row round_div s es row) row round_div p named (
        Agree-is_subset (columns_all es) s (project_row round_div s es row) row (columns p)
          (columns_all es) sub (λ n in_es. lookup-project_row es n ids in_es)))

  pub all_hold-project_row :
      (es ps : List AstExpr)
      → Idents s es
      → All (λ p. InScope (columns_all es) p) ps
      → all_hold round_div (columns_all es) ps (project_row round_div s es row)
        ≡ all_hold round_div s ps row
  all_hold-project_row es [] ids a = refl
  all_hold-project_row es (p ∷ ps) ids (ip, a) =
      rw (holds-project_row es p ids ip, all_hold-project_row es ps ids a) refl

  pub length-project_row :
      (es : List AstExpr)
      → Idents s es
      → length (project_row round_div s es row) ≡ length (columns_all es)
  length-project_row [] ids = refl
  length-project_row (ident n ∷ es) (in_s, ids) = omega (arith, length-project_row es ids)
  length-project_row (literal f ∷ es) ids = absurd ids
  length-project_row (alias n e ∷ es) ids = absurd ids
  length-project_row (math op l r ∷ es) ids = absurd ids
  length-project_row (boolean op l r ∷ es) ids = absurd ids
  length-project_row (agg op e ∷ es) ids = absurd ids
  length-project_row (col_idx i ∷ es) ids = absurd ids

-- A predicate that is taken apart and put together again holds on the same rows.
pub combine-separate :
    (round_div : ℤ → ℤ → ℤ) (s : List String) (row : Row) (p : AstExpr)
    → filter_holds round_div s (combine_predicates_with_and (separate_predicates_by_and p [])) row
      ≡ holds round_div s p row
combine-separate round_div s row p =
    filter_holds-combine round_div s row (separate_predicates_by_and p [])
    ∙ all_hold-separate round_div s row p []
    ∙ ground arith
