-- ===== src/Plan/Pushdown/Settled.antt =====
-- The helpers and loops of optimizer/src/pushdown_predicate.rs, against the tests of Plan.Pushdown.Wanted.
use crustydb_labs_cs378_spri.Prelude.{
  Bool, true, false, ◌&&◌, not, ◌≡◌, refl, sym, ap, ◌∙◌, List, [], ◌∷◌, ◌++◌, Option, none, some,
  String, string_eq, contains, if◌then◌else◌, inl, inr, Bool-cases,
}
use crustydb_labs_cs378_spri.Expr.Field.{eq, and, neq, gt, gte, lt, lte, or}
use crustydb_labs_cs378_spri.Expr.Ast.{AstExpr, literal, ident, alias, math, boolean, agg, col_idx}
use crustydb_labs_cs378_spri.Plan.Graph.Targets.{append_assoc, append_nil}
use crustydb_labs_cs378_spri.Plan.Tree.{crossing}
use crustydb_labs_cs378_spri.Plan.Rows.Keep.{keep}
use crustydb_labs_cs378_spri.Plan.Pushdown.{
  Split, equality_sides, stay, add_eq, is_subset, reduce_and, combine_predicates_with_and,
  separate_predicates_by_and, separate_filter,
}
use crustydb_labs_cs378_spri.Plan.Pushdown.Spec.{
  placed, place_equality, all_placed, having_placed, cross_of,
}
use crustydb_labs_cs378_spri.Plan.Pushdown.Wanted.{
  conjuncts, filter_conjuncts, conjunction, all_of, covered, only_right, equated, is_equated,
  consed, join_equalities, at_join, joined_by,
}

pub separate-conjuncts :
    (p : AstExpr) (ps : List AstExpr) → separate_predicates_by_and p ps ≡ ps ++ conjuncts p
unfolding separate_predicates_by_and conjuncts
separate-conjuncts (literal f) ps = refl
separate-conjuncts (ident i) ps = refl
separate-conjuncts (alias i e) ps = refl
separate-conjuncts (math op l r) ps = refl
separate-conjuncts (boolean and l r) ps =
    separate-conjuncts r (separate_predicates_by_and l ps)
    ∙ ap (λ qs. qs ++ conjuncts r) (separate-conjuncts l ps)
    ∙ append_assoc ps (conjuncts l) (conjuncts r)
separate-conjuncts (boolean eq l r) ps = refl
separate-conjuncts (boolean neq l r) ps = refl
separate-conjuncts (boolean gt l r) ps = refl
separate-conjuncts (boolean gte l r) ps = refl
separate-conjuncts (boolean lt l r) ps = refl
separate-conjuncts (boolean lte l r) ps = refl
separate-conjuncts (boolean or l r) ps = refl
separate-conjuncts (agg op e) ps = refl
separate-conjuncts (col_idx i) ps = refl

pub separate_filter-conjuncts :
    (f : Option AstExpr) (ps : List AstExpr) → separate_filter f ps ≡ ps ++ filter_conjuncts f
separate_filter-conjuncts none ps = sym (append_nil ps)
separate_filter-conjuncts (some p) ps = separate-conjuncts p ps

reduce_and-conjunction : (a : AstExpr) (ps : List AstExpr) → reduce_and a ps ≡ conjunction a ps
unfolding reduce_and conjunction
reduce_and-conjunction a [] = refl
reduce_and-conjunction a (b ∷ ps) = reduce_and-conjunction (boolean and a b) ps

pub combine-all_of : (ps : List AstExpr) → combine_predicates_with_and ps ≡ all_of ps
unfolding combine_predicates_with_and all_of
combine-all_of [] = refl
combine-all_of (a ∷ ps) = ap some (reduce_and-conjunction a ps)

pub is_subset-covered : (xs ys : List String) → is_subset xs ys ≡ covered xs ys
unfolding is_subset covered
is_subset-covered [] ys = refl
is_subset-covered (x ∷ xs) ys = elim (Bool-cases (contains ys x)) [
  | inl in_it ↦
      ap (λ b. elim b [ true ↦ is_subset xs ys | false ↦ false ]) in_it
      ∙ is_subset-covered xs ys
      ∙ sym (ap (λ b. b && covered xs ys) in_it)
  | inr out ↦
      ap (λ b. elim b [ true ↦ is_subset xs ys | false ↦ false ]) out
      ∙ sym (ap (λ b. b && covered xs ys) out)
]

module _ (on_left on_right : AstExpr → Bool) where
  -- The categories after the loop over the predicates.
  abbrev pub settled : List AstExpr → Split → Split
  settled ps s = record {
    left_predicates = s.left_predicates ++ keep on_left ps;
    right_predicates = s.right_predicates ++ keep (only_right on_left on_right) ps;
    new_eqs = s.new_eqs ++ join_equalities on_left on_right ps;
    remaining_predicates = s.remaining_predicates ++ at_join on_left on_right ps;
  }

  abbrev oriented : Option (AstExpr × AstExpr) → Option (AstExpr × AstExpr)
  oriented none = none
  oriented (some (a, b)) =
      if on_left a && on_right b
      then some (a, b)
      else (if on_right a && on_left b then some (b, a) else none)

  equated-oriented : (p : AstExpr) → equated on_left on_right p ≡ oriented (equality_sides p)
  equated-oriented (literal f) = refl
  equated-oriented (ident i) = refl
  equated-oriented (alias i e) = refl
  equated-oriented (math op l r) = refl
  equated-oriented (boolean eq l r) = refl
  equated-oriented (boolean neq l r) = refl
  equated-oriented (boolean gt l r) = refl
  equated-oriented (boolean gte l r) = refl
  equated-oriented (boolean lt l r) = refl
  equated-oriented (boolean lte l r) = refl
  equated-oriented (boolean and l r) = refl
  equated-oriented (boolean or l r) = refl
  equated-oriented (agg op e) = refl
  equated-oriented (col_idx i) = refl

  -- After a predicate that spans both sides, by the equality that it is.
  abbrev spanned : Option (AstExpr × AstExpr) → AstExpr → List AstExpr → Split → Split
  spanned found p ps s = record {
    left_predicates = s.left_predicates ++ keep on_left ps;
    right_predicates = s.right_predicates ++ keep (only_right on_left on_right) ps;
    new_eqs = s.new_eqs ++ consed on_left on_right found (join_equalities on_left on_right ps);
    remaining_predicates =
        s.remaining_predicates
        ++ (if not (is_equated on_left on_right found)
            then p ∷ at_join on_left on_right ps
            else at_join on_left on_right ps);
  }

  settled-stay :
      (p : AstExpr) (ps : List AstExpr) (s : Split) → settled ps (stay p s) ≡ spanned none p ps s
  settled-stay p ps s =
      ap (λ rest. record (settled ps s) { remaining_predicates = rest })
        (append_assoc s.remaining_predicates (p ∷ []) (at_join on_left on_right ps))

  settled-add_eq :
      (a b p : AstExpr) (ps : List AstExpr) (s : Split)
      → settled ps (add_eq a b s) ≡ spanned (some (a, b)) p ps s
  settled-add_eq a b p ps s =
      ap (λ eqs. record (settled ps s) { new_eqs = eqs })
        (append_assoc s.new_eqs ((a, b) ∷ []) (join_equalities on_left on_right ps))

  settled-equality :
      (sides : Option (AstExpr × AstExpr)) (p : AstExpr) (ps : List AstExpr) (s : Split)
      → settled ps (place_equality on_left on_right sides p s) ≡ spanned (oriented sides) p ps s
  settled-equality none p ps s = settled-stay p ps s
  settled-equality (some (a, b)) p ps s = elim (Bool-cases (on_left a && on_right b)) [
    | inl in_order ↦ rw in_order (settled-add_eq a b p ps s)
    | inr not_so ↦ elim (Bool-cases (on_right a && on_left b)) [
      | inl swapped ↦ rw (not_so, swapped) (settled-add_eq b a p ps s)
      | inr neither ↦ rw (not_so, neither) (settled-stay p ps s)
    ]
  ]

  settled-cons :
      (p : AstExpr) (ps : List AstExpr) (s : Split)
      → settled ps (placed on_left on_right p s) ≡ settled (p ∷ ps) s
  settled-cons p ps s = elim (Bool-cases (on_left p)) [
    | inl to_left ↦ rw to_left (
        ap (λ lefts. record (settled ps s) { left_predicates = lefts })
          (append_assoc s.left_predicates (p ∷ []) (keep on_left ps)))
    | inr not_left ↦ elim (Bool-cases (on_right p)) [
      | inl to_right ↦
          rw (not_left, to_right)
            (ap (λ rights. record (settled ps s) { right_predicates = rights })
              (append_assoc s.right_predicates (p ∷ []) (keep (only_right on_left on_right) ps)))
      | inr not_right ↦
          rw (not_left, not_right, equated-oriented p) (settled-equality (equality_sides p) p ps s)
    ]
  ]

  pub all_placed-settled :
      (ps : List AstExpr) (s : Split) → all_placed on_left on_right ps s ≡ settled ps s
  all_placed-settled [] s =
      rw
        (
          append_nil s.left_predicates,
          append_nil s.right_predicates,
          append_nil s.new_eqs,
          append_nil s.remaining_predicates,
        )
        refl
  all_placed-settled (p ∷ ps) s =
      all_placed-settled ps (placed on_left on_right p s) ∙ settled-cons p ps s

pub having_placed-keep :
    (fits' : AstExpr → Bool) (ps having pushing : List AstExpr)
    → having_placed fits' ps (having, pushing)
      ≡ (having ++ keep (λ p. not (fits' p)) ps, pushing ++ keep fits' ps)
having_placed-keep fits' [] having pushing = rw (append_nil having, append_nil pushing) refl
having_placed-keep fits' (p ∷ ps) having pushing = elim (Bool-cases (fits' p)) [
  | inl down ↦ rw down (
      having_placed-keep fits' ps having (pushing ++ p ∷ [])
      ∙ ap (λ qs. (having ++ keep (λ q. not (fits' q)) ps, qs))
          (append_assoc pushing (p ∷ []) (keep fits' ps)))
  | inr stays ↦ rw stays (
      having_placed-keep fits' ps (having ++ p ∷ []) pushing
      ∙ ap (λ qs. (qs, pushing ++ keep fits' ps))
          (append_assoc having (p ∷ []) (keep (λ q. not (fits' q)) ps)))
]

pub joined_by-cross_of :
    (eqs : List (AstExpr × AstExpr)) (s : Split)
    → s.new_eqs ≡ eqs
    → cross_of eqs s ≡ joined_by eqs (all_of s.remaining_predicates)
joined_by-cross_of [] s e =
    ap (λ rest. crossing (record { filter = rest })) (combine-all_of s.remaining_predicates)
joined_by-cross_of (x ∷ eqs) s e = rw (e, combine-all_of s.remaining_predicates) refl
