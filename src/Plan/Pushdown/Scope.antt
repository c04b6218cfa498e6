-- ===== src/Plan/Pushdown/Scope.antt =====
-- The scope of predicates, where `separate_predicates_by_and` of optimizer/src/pushdown_predicate.rs takes
-- them apart.
use crustydb_labs_cs378_spri.Prelude.{
  true, List, [], ◌∷◌, ◌++◌, Option, none, some, String, string_eq, contains, ◌≡◌, refl, sym, ◌∙◌,
  subst, arith, ◌==◌, inl, inr, Bool-cases,
}
use crustydb_labs_cs378_spri.Expr.Field.{and, eq, neq, gt, gte, lt, lte, or}
use crustydb_labs_cs378_spri.Expr.Ast.{AstExpr, literal, ident, alias, math, boolean, agg, col_idx}
use crustydb_labs_cs378_spri.Plan.Pushdown.{is_subset, separate_predicates_by_and, separate_filter}
use crustydb_labs_cs378_spri.Plan.Pushdown.Spec.{columns, columns_all, Named}
use crustydb_labs_cs378_spri.Plan.Pushdown.Truth.{InScope, FilterInScope, Idents}
use crustydb_labs_cs378_spri.Plan.Rows.Keep.{All, All-append}

is_subset-append :
    (xs ys zs : List String)
    → is_subset (xs ++ ys) zs ≡ true
    → (is_subset xs zs ≡ true) × (is_subset ys zs ≡ true)
unfolding is_subset
is_subset-append [] ys zs h = (refl, h)
is_subset-append (x ∷ xs) ys zs h = ground (arith, h, is_subset-append xs ys zs)

-- What holds of a predicate and passes to the sides of an `And` holds of its parts.
module _ (P : AstExpr → Type 0) (sides : (l r : AstExpr) → P (boolean and l r) → P l × P r) where
  abbrev snoc : (ps : List AstExpr) (p : AstExpr) → P p → All P ps → All P (ps ++ p ∷ [])
  snoc ps p m n = All-append P ps (p ∷ []) n (m, tt)

  pub All-separate :
      (p : AstExpr) (ps : List AstExpr) → P p → All P ps → All P (separate_predicates_by_and p ps)
  unfolding separate_predicates_by_and
  All-separate (literal f) ps m n = snoc ps _ m n
  All-separate (ident i) ps m n = snoc ps _ m n
  All-separate (alias i e) ps m n = snoc ps _ m n
  All-separate (math op l r) ps m n = snoc ps _ m n
  All-separate (boolean and l r) ps m n =
      All-separate r _ (sides l r m).1 (All-separate l ps (sides l r m).0 n)
  All-separate (boolean eq l r) ps m n = snoc ps _ m n
  All-separate (boolean neq l r) ps m n = snoc ps _ m n
  All-separate (boolean gt l r) ps m n = snoc ps _ m n
  All-separate (boolean gte l r) ps m n = snoc ps _ m n
  All-separate (boolean lt l r) ps m n = snoc ps _ m n
  All-separate (boolean lte l r) ps m n = snoc ps _ m n
  All-separate (boolean or l r) ps m n = snoc ps _ m n
  All-separate (agg op e) ps m n = snoc ps _ m n
  All-separate (col_idx i) ps m n = snoc ps _ m n

pub InScope-sides :
    (s : List String) (l r : AstExpr) → InScope s (boolean and l r) → InScope s l × InScope s r
InScope-sides s l r ((nl, nr), sub) =
    let (sl, sr) = is_subset-append (columns l) (columns r) s sub in ((nl, sl), (nr, sr))

pub InScope-separate_filter :
    (s : List String) (f : Option AstExpr) (ps : List AstExpr)
    → FilterInScope s f
    → All (λ p. InScope s p) ps
    → All (λ p. InScope s p) (separate_filter f ps)
InScope-separate_filter s none ps m n = n
InScope-separate_filter s (some p) ps m n =
    All-separate (λ q. InScope s q) (InScope-sides s) p ps m n

pub InScope-Named :
    (s : List String) (ps : List AstExpr) → All (λ p. InScope s p) ps → All (λ p. Named p) ps
InScope-Named s [] n = tt
InScope-Named s (p ∷ ps) ((m, sub), n) = (m, InScope-Named s ps n)

contains-columns_all :
    (s : List String) (es : List AstExpr) (x : String)
    → Idents s es
    → contains (columns_all es) x ≡ true
    → contains s x ≡ true
unfolding contains
contains-columns_all s [] x ids h = cc
contains-columns_all s (ident n ∷ es) x (in_s, ids) h = elim (Bool-cases (n == x)) [
  | inl yes_ ↦ subst (λ z. contains s z ≡ true) ((string_eq.beq_iff n x).0 yes_) in_s
  | inr no_ ↦ contains-columns_all s es x ids (ground (arith, h, no_))
]
contains-columns_all s (literal f ∷ es) x ids h = absurd ids
contains-columns_all s (alias n e ∷ es) x ids h = absurd ids
contains-columns_all s (math op l r ∷ es) x ids h = absurd ids
contains-columns_all s (boolean op l r ∷ es) x ids h = absurd ids
contains-columns_all s (agg op e ∷ es) x ids h = absurd ids
contains-columns_all s (col_idx i ∷ es) x ids h = absurd ids

is_subset-columns_all :
    (s : List String) (es : List AstExpr) (xs : List String)
    → Idents s es
    → is_subset xs (columns_all es) ≡ true
    → is_subset xs s ≡ true
unfolding is_subset
is_subset-columns_all s es [] ids h = refl
is_subset-columns_all s es (x ∷ xs) ids h = elim (Bool-cases (contains (columns_all es) x)) [
  | inl yes_ ↦
      rw (is_subset, contains-columns_all s es x ids yes_)
        (is_subset-columns_all s es xs ids (sym (tail yes_) ∙ h))
  | inr no_ ↦ cc
]
  where
    tail :
        contains (columns_all es) x ≡ true
        → is_subset (x ∷ xs) (columns_all es) ≡ is_subset xs (columns_all es)
    tail e = rw (is_subset, e) refl

-- Predicates over the columns of a projection are over those below it.
pub InScope-below :
    (s : List String) (es ps : List AstExpr)
    → Idents s es
    → All (λ p. InScope (columns_all es) p) ps
    → All (λ p. InScope s p) ps
InScope-below s es [] ids n = tt
InScope-below s es (p ∷ ps) ids ((m, sub), n) =
    ((m, is_subset-columns_all s es (columns p) ids sub), InScope-below s es ps ids n)
