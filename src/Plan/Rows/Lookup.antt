-- ===== src/Plan/Rows/Lookup.antt =====
-- What an expression of common/src/ast_expr.rs reads of a row: its columns.
use crustydb_labs_cs378_spri.Prelude.{
  ℕ, zero, suc, true, false, List, [], ◌∷◌, ◌++◌, Option, none, some, String, string_eq, ◌==◌,
  contains, if◌then◌else◌, Outcome, ok, panic, ◌>>=◌, unwrap, ◌≡◌, refl, sym, ap, ◌∙◌, length, inl,
  inr, Bool-cases, arith,
}
use crustydb_labs_cs378_spri.Prelude.Int.{ℤ}
use crustydb_labs_cs378_spri.Expr.Field.{Field}
use crustydb_labs_cs378_spri.Expr.Ast.{
  AstExpr, literal, ident, alias, math, boolean, agg, col_idx, get_field_index, field_index_from,
}
use crustydb_labs_cs378_spri.Expr.Meaning.{meaning, column}
use crustydb_labs_cs378_spri.Plan.Pushdown.{is_subset}
use crustydb_labs_cs378_spri.Plan.Pushdown.Spec.{columns, Named}

-- The value under the first attribute of the name.
abbrev pub lookup : List String → List Field → String → Outcome Field
lookup [] row x = panic
lookup (a ∷ schema) [] x = panic
lookup (a ∷ schema) (v ∷ row) x = if a == x then ok v else lookup schema row x

abbrev next : Option ℕ → Option ℕ
next none = none
next (some n) = some (suc n)

field_index_from-suc :
    (i : ℕ) (schema : List String) (x : String)
    → field_index_from (suc i) schema x ≡ next (field_index_from i schema x)
unfolding field_index_from
field_index_from-suc i [] x = refl
field_index_from-suc i (a ∷ schema) x = elim (Bool-cases (a == x)) [
  | inl yes_ ↦ rw (yes_) refl
  | inr no_ ↦ rw (no_) (field_index_from-suc (suc i) schema x)
]

abbrev at : List Field → Option ℕ → Outcome Field
at row o = unwrap o >>= (λ i. column row i)

at-next : (v : Field) (row : List Field) (o : Option ℕ) → at (v ∷ row) (next o) ≡ at row o
at-next v row none = refl
at-next v row (some i) = refl

at_nothing : (o : Option ℕ) → at [] o ≡ panic
at_nothing none = refl
at_nothing (some zero) = refl
at_nothing (some (suc i)) = refl

ident-lookup :
    (schema : List String) (row : List Field) (x : String)
    → at row (field_index_from 0 schema x) ≡ lookup schema row x
unfolding field_index_from
ident-lookup [] row x = refl
ident-lookup (a ∷ schema) [] x = at_nothing (field_index_from 0 (a ∷ schema) x)
ident-lookup (a ∷ schema) (v ∷ row) x = elim (Bool-cases (a == x)) [
  | inl yes_ ↦ rw (yes_) refl
  | inr no_ ↦ rw (no_) (
      ap (λ o. at (v ∷ row) o) (field_index_from-suc 0 schema x)
      ∙ at-next v row (field_index_from 0 schema x)
      ∙ ident-lookup schema row x)
]

-- The rows agree on the names.
abbrev pub Agree : List String → List String → List Field → List String → List Field → Type 0
Agree [] s row s' row' = Unit {0}
Agree (x ∷ xs) s row s' row' = (lookup s row x ≡ lookup s' row' x) × Agree xs s row s' row'

module _ (s s' : List String) (row row' : List Field) where
  Agree-left : (xs ys : List String) → Agree (xs ++ ys) s row s' row' → Agree xs s row s' row'
  Agree-left [] ys a = tt
  Agree-left (x ∷ xs) ys (here, a) = (here, Agree-left xs ys a)

  Agree-right : (xs ys : List String) → Agree (xs ++ ys) s row s' row' → Agree ys s row s' row'
  Agree-right [] ys a = a
  Agree-right (x ∷ xs) ys (here, a) = Agree-right xs ys a

  -- Names of a list on which the rows agree everywhere.
  pub Agree-is_subset :
      (xs ys : List String)
      → is_subset xs ys ≡ true
      → ((x : String) → contains ys x ≡ true → lookup s row x ≡ lookup s' row' x)
      → Agree xs s row s' row'
  unfolding is_subset
  Agree-is_subset [] ys sub same = tt
  Agree-is_subset (x ∷ xs) ys sub same = elim (Bool-cases (contains ys x)) [
    | inl yes_ ↦ (same x yes_, Agree-is_subset xs ys (sym (rest yes_) ∙ sub) same)
    | inr no_ ↦ cc
  ]
    where
      rest : contains ys x ≡ true → is_subset (x ∷ xs) ys ≡ is_subset xs ys
      rest e = rw (is_subset, e) refl

  pub meaning-Agree :
      (round_div : ℤ → ℤ → ℤ) (p : AstExpr)
      → Named p
      → Agree (columns p) s row s' row'
      → meaning round_div s row p ≡ meaning round_div s' row' p
  unfolding meaning get_field_index
  meaning-Agree round_div (literal f) n a = refl
  meaning-Agree round_div (ident x) n (a, u) =
      ident-lookup s row x ∙ a ∙ sym (ident-lookup s' row' x)
  meaning-Agree round_div (alias x e) n a = meaning-Agree round_div e n a
  meaning-Agree round_div (math op l r) (nl, nr) a =
      rw
        (
          meaning-Agree round_div l nl (Agree-left (columns l) (columns r) a),
          meaning-Agree round_div r nr (Agree-right (columns l) (columns r) a),
        )
        refl
  meaning-Agree round_div (boolean op l r) (nl, nr) a =
      rw
        (
          meaning-Agree round_div l nl (Agree-left (columns l) (columns r) a),
          meaning-Agree round_div r nr (Agree-right (columns l) (columns r) a),
        )
        refl
  meaning-Agree round_div (agg op e) n a = refl
  meaning-Agree round_div (col_idx i) n a = absurd n

-- A name of the first schema is read from the first row.
pub lookup-left :
    (s s' : List String) (row row' : List Field) (x : String)
    → length row ≡ length s
    → contains s x ≡ true
    → lookup (s ++ s') (row ++ row') x ≡ lookup s row x
unfolding contains
lookup-left [] s' row row' x fit in_s = cc
lookup-left (a ∷ s) s' [] row' x fit in_s = absurd (omega (arith, fit))
lookup-left (a ∷ s) s' (v ∷ row) row' x fit in_s = elim (Bool-cases (a == x)) [
  | inl yes_ ↦ rw (yes_) refl
  | inr no_ ↦
      rw (no_) (lookup-left s s' row row' x (omega (arith, fit)) (ground (arith, in_s, no_)))
]

-- A name that the first schema lacks is read from the second row.
pub lookup-right :
    (s s' : List String) (row row' : List Field) (x : String)
    → length row ≡ length s
    → contains s x ≡ false
    → lookup (s ++ s') (row ++ row') x ≡ lookup s' row' x
unfolding contains
lookup-right [] s' [] row' x fit out = refl
lookup-right [] s' (v ∷ row) row' x fit out = absurd (omega (arith, fit))
lookup-right (a ∷ s) s' [] row' x fit out = absurd (omega (arith, fit))
lookup-right (a ∷ s) s' (v ∷ row) row' x fit out = elim (Bool-cases (a == x)) [
  | inl yes_ ↦ absurd (ground (arith, out, yes_))
  | inr no_ ↦
      rw (no_) (lookup-right s s' row row' x (omega (arith, fit)) (ground (arith, out, no_)))
]

-- A name of the schema has a value in a row that fits it.
pub lookup-ok :
    (s : List String) (row : List Field) (x : String)
    → length row ≡ length s
    → contains s x ≡ true
    → (v : Field) × (lookup s row x ≡ ok v)
unfolding contains
lookup-ok [] row x fit in_s = cc
lookup-ok (a ∷ s) [] x fit in_s = absurd (omega (arith, fit))
lookup-ok (a ∷ s) (v ∷ row) x fit in_s = elim (Bool-cases (a == x)) [
  | inl yes_ ↦ (v, rw (yes_) refl)
  | inr no_ ↦
      let (w, found) = lookup-ok s row x (omega (arith, fit)) (ground (arith, in_s, no_)) in
      (w, rw (no_) found)
]

pub meaning-ident :
    (round_div : ℤ → ℤ → ℤ) (s : List String) (row : List Field) (x : String)
    → meaning round_div s row (ident x) ≡ lookup s row x
unfolding meaning get_field_index
meaning-ident round_div s row x = ident-lookup s row x
