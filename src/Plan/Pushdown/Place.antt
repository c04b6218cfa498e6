-- ===== src/Plan/Pushdown/Place.antt =====
-- The loops over the predicates of a join and of an aggregate, on graphs and on trees.
use crustydb_labs_cs378_spri.Prelude.{
  ℕ, Bool, ◌&&◌, List, [], ◌∷◌, ◌++◌, Option, none, some, String, ◌≡◌, refl, sym, subst, ap, ◌∙◌,
  inl, inr, Bool-cases, if◌then◌else◌, ok, >>=-ok,
}
use crustydb_labs_cs378_spri.Expr.Field.{and, eq, neq, gt, gte, lt, lte, or}
use crustydb_labs_cs378_spri.Expr.Ast.{AstExpr, literal, ident, alias, math, boolean, agg, col_idx}
use crustydb_labs_cs378_spri.Plan.Logical.{LogicalPlan}
use crustydb_labs_cs378_spri.Plan.Tree.{PlanTree}
use crustydb_labs_cs378_spri.Plan.Tree.Build.{PlanInv}
use crustydb_labs_cs378_spri.Plan.Pushdown.{
  Split, equality_sides, can_be_pushed_down, place, place_all, place_having, place_sides,
  separate_predicates_by_and, separate_filter,
}
use crustydb_labs_cs378_spri.Plan.Pushdown.Columns.{Named-sides, both_pushed-refined}
use crustydb_labs_cs378_spri.Plan.Pushdown.Spec.{
  fits, placed, place_equality, all_placed, having_placed, Named, NamedAll, NamedFilter,
}

pub NamedAll-snoc :
    (ps : List AstExpr) (p : AstExpr) → NamedAll ps → Named p → NamedAll (ps ++ p ∷ [])
NamedAll-snoc [] p n m = (m, tt)
NamedAll-snoc (x ∷ ps) p (nx, n) m = (nx, NamedAll-snoc ps p n m)

pub NamedAll-separate :
    (p : AstExpr) (ps : List AstExpr)
    → Named p
    → NamedAll ps
    → NamedAll (separate_predicates_by_and p ps)
unfolding separate_predicates_by_and
NamedAll-separate (literal f) ps m n = NamedAll-snoc ps _ n m
NamedAll-separate (ident i) ps m n = NamedAll-snoc ps _ n m
NamedAll-separate (alias i e) ps m n = NamedAll-snoc ps _ n m
NamedAll-separate (math op l r) ps m n = NamedAll-snoc ps _ n m
NamedAll-separate (boolean and l r) ps (ml, mr) n =
    NamedAll-separate r _ mr (NamedAll-separate l ps ml n)
NamedAll-separate (boolean eq l r) ps m n = NamedAll-snoc ps _ n m
NamedAll-separate (boolean neq l r) ps m n = NamedAll-snoc ps _ n m
NamedAll-separate (boolean gt l r) ps m n = NamedAll-snoc ps _ n m
NamedAll-separate (boolean gte l r) ps m n = NamedAll-snoc ps _ n m
NamedAll-separate (boolean lt l r) ps m n = NamedAll-snoc ps _ n m
NamedAll-separate (boolean lte l r) ps m n = NamedAll-snoc ps _ n m
NamedAll-separate (boolean or l r) ps m n = NamedAll-snoc ps _ n m
NamedAll-separate (agg op e) ps m n = NamedAll-snoc ps _ n m
NamedAll-separate (col_idx i) ps m n = absurd m

pub NamedAll-separate_filter :
    (f : Option AstExpr) (ps : List AstExpr)
    → NamedFilter f
    → NamedAll ps
    → NamedAll (separate_filter f ps)
NamedAll-separate_filter none ps m n = n
NamedAll-separate_filter (some p) ps m n = NamedAll-separate p ps m n

-- What goes to the children is not bound either.
pub record NamedSplit (s : Split) : Type 0 where
  pub lefts : NamedAll s.left_predicates
  pub rights : NamedAll s.right_predicates

module _ (fits_l fits_r : AstExpr → Bool) where
  NamedSplit-place_equality :
      (sides : Option (AstExpr × AstExpr)) (p : AstExpr) (s : Split)
      → NamedSplit s
      → NamedSplit (place_equality fits_l fits_r sides p s)
  NamedSplit-place_equality none p s n = record { lefts = n.lefts; rights = n.rights }
  NamedSplit-place_equality (some (a, b)) p s n = elim (Bool-cases (fits_l a && fits_r b)) [
    | inl yes_ ↦ rw (yes_) (record { lefts = n.lefts; rights = n.rights })
    | inr no_ ↦ elim (Bool-cases (fits_r a && fits_l b)) [
      | inl yes_ ↦ rw (no_, yes_) (record { lefts = n.lefts; rights = n.rights })
      | inr no' ↦ rw (no_, no') (record { lefts = n.lefts; rights = n.rights })
    ]
  ]

  NamedSplit-placed :
      (p : AstExpr) (s : Split) → Named p → NamedSplit s → NamedSplit (placed fits_l fits_r p s)
  NamedSplit-placed p s m n = elim (Bool-cases (fits_l p)) [
    | inl yes_ ↦
        rw (yes_)
          (record { lefts = NamedAll-snoc s.left_predicates p n.lefts m; rights = n.rights })
    | inr no_ ↦ elim (Bool-cases (fits_r p)) [
      | inl yes_ ↦
          rw (no_, yes_)
            (record { lefts = n.lefts; rights = NamedAll-snoc s.right_predicates p n.rights m })
      | inr no' ↦ rw (no_, no') (NamedSplit-place_equality (equality_sides p) p s n)
    ]
  ]

  pub NamedSplit-all_placed :
      (ps : List AstExpr) (s : Split)
      → NamedAll ps
      → NamedSplit s
      → NamedSplit (all_placed fits_l fits_r ps s)
  NamedSplit-all_placed [] s m n = n
  NamedSplit-all_placed (p ∷ ps) s (mp, m) n =
      NamedSplit-all_placed ps (placed fits_l fits_r p s) m (NamedSplit-placed p s mp n)

module _ (fits' : AstExpr → Bool) where
  abbrev step : AstExpr → List AstExpr → List AstExpr → Bool → List AstExpr × List AstExpr
  step p having pushing b = if b then (having, pushing ++ p ∷ []) else (having ++ p ∷ [], pushing)

  pub NamedAll-having_placed :
      (ps having pushing : List AstExpr)
      → NamedAll ps
      → NamedAll pushing
      → NamedAll (having_placed fits' ps (having, pushing)).1
  NamedAll-having_placed [] having pushing m n = n
  NamedAll-having_placed (p ∷ ps) having pushing (mp, m) n = elim (Bool-cases (fits' p)) [
    | inl yes_ ↦
        subst (λ b. NamedAll (having_placed fits' ps (step p having pushing b)).1) (sym yes_)
          (NamedAll-having_placed ps having (pushing ++ p ∷ []) m (NamedAll-snoc pushing p n mp))
    | inr no_ ↦
        subst (λ b. NamedAll (having_placed fits' ps (step p having pushing b)).1) (sym no_)
          (NamedAll-having_placed ps (having ++ p ∷ []) pushing m n)
  ]

module _ (catalog : ℕ → Option (List String)) (lp : LogicalPlan) (v : PlanInv lp) (fuel i j : ℕ)
    (l r : PlanTree)
    (can_l : (p : AstExpr)
      → Named p
      → can_be_pushed_down catalog lp fuel p i ≡ ok (fits catalog l p))
    (can_r : (p : AstExpr)
      → Named p
      → can_be_pushed_down catalog lp fuel p j ≡ ok (fits catalog r p)) where
  place_sides-place_equality :
      (sides : Option (AstExpr × AstExpr)) (p : AstExpr) (s : Split)
      → ((a b : AstExpr) → sides ≡ some (a, b) → Named a × Named b)
      → place_sides catalog lp fuel i j sides p s
        ≡ ok (place_equality (fits catalog l) (fits catalog r) sides p s)
  unfolding place_sides
  place_sides-place_equality none p s named = refl
  place_sides-place_equality (some (a, b)) p s named =
      let (ma, mb) = named a b refl in
      let in_order = both_pushed-refined catalog lp v fuel i j a b _ _ (can_l a ma) (can_r b mb) in
      let swapped = both_pushed-refined catalog lp v fuel j i a b _ _ (can_r a ma) (can_l b mb) in
      elim (Bool-cases (fits catalog l a && fits catalog r b)) [
        | inl yes_ ↦ rw (in_order, yes_) refl
        | inr no_ ↦
            >>=-ok _ _ (in_order ∙ ap ok no_)
              (elim (Bool-cases (fits catalog r a && fits catalog l b)) [
                | inl yes' ↦ >>=-ok _ _ (swapped ∙ ap ok yes') (rw (no_, yes') refl)
                | inr no' ↦ >>=-ok _ _ (swapped ∙ ap ok no') (rw (no_, no') refl)
              ])
      ]

  place-placed :
      (p : AstExpr) (s : Split)
      → Named p
      → place catalog lp fuel i j p s ≡ ok (placed (fits catalog l) (fits catalog r) p s)
  unfolding place
  place-placed p s m = elim (Bool-cases (fits catalog l p)) [
    | inl to_l ↦ >>=-ok _ _ (can_l p m ∙ ap ok to_l) (rw (to_l) refl)
    | inr not_l ↦ >>=-ok _ _ (can_l p m ∙ ap ok not_l) (elim (Bool-cases (fits catalog r p)) [
      | inl to_r ↦ >>=-ok _ _ (can_r p m ∙ ap ok to_r) (rw (not_l, to_r) refl)
      | inr not_r ↦ >>=-ok _ _ (can_r p m ∙ ap ok not_r) (
          rw (not_l, not_r)
            (place_sides-place_equality (equality_sides p) p s
              (λ a b sides. Named-sides p sides m)))
    ])
  ]

  pub place_all-all_placed :
      (ps : List AstExpr) (s : Split)
      → NamedAll ps
      → place_all catalog lp fuel i j ps s ≡ ok (all_placed (fits catalog l) (fits catalog r) ps s)
  unfolding place_all
  place_all-all_placed [] s m = refl
  place_all-all_placed (p ∷ ps) s (mp, m) =
      >>=-ok _ _ (place-placed p s mp) (place_all-all_placed ps _ m)

  pub place_having-having_placed :
      (ps having pushing : List AstExpr)
      → NamedAll ps
      → place_having catalog lp fuel i ps (having, pushing)
        ≡ ok (having_placed (fits catalog l) ps (having, pushing))
  unfolding place_having
  place_having-having_placed [] having pushing m = refl
  place_having-having_placed (p ∷ ps) having pushing (mp, m) =
      elim (Bool-cases (fits catalog l p)) [
        | inl down ↦
            rw (can_l p mp, down) (place_having-having_placed ps having (pushing ++ p ∷ []) m)
        | inr not_down ↦
            rw (can_l p mp, not_down) (place_having-having_placed ps (having ++ p ∷ []) pushing m)
      ]
