-- ===== src/Plan/Pushdown/Wanted.antt =====
-- What optimizer/src/pushdown_predicate.rs is to make of a tree of operators, described without its loops:
-- the predicates over a join by the tests that they meet, in their order.
use crustydb_labs_cs378_spri.Prelude.{
  ℕ, Bool, true, false, ◌&&◌, not, List, [], ◌∷◌, ◌++◌, Option, none, some, String, string_eq,
  contains, if◌then◌else◌,
}
use crustydb_labs_cs378_spri.Expr.Field.{eq, and}
use crustydb_labs_cs378_spri.Expr.Ast.{AstExpr, boolean}
use crustydb_labs_cs378_spri.Plan.Tree.{
  projecting, filtering, aggregating, sorting, TwoOp, joining, crossing, PlanTree, leaf, over, both,
}
use crustydb_labs_cs378_spri.Plan.Rows.Keep.{keep}
use crustydb_labs_cs378_spri.Plan.Pushdown.Spec.{columns, tree_columns}

-- The parts of a predicate between its `And`s.
unfoldable pub conjuncts : AstExpr → List AstExpr
conjuncts (boolean and l r) = conjuncts l ++ conjuncts r
conjuncts p = p ∷ []

abbrev pub filter_conjuncts : Option AstExpr → List AstExpr
filter_conjuncts none = []
filter_conjuncts (some p) = conjuncts p

unfoldable pub conjunction : AstExpr → List AstExpr → AstExpr
conjunction a [] = a
conjunction a (b ∷ ps) = conjunction (boolean and a b) ps

-- All of the predicates at once.
unfoldable pub all_of : List AstExpr → Option AstExpr
unfolding conjunction
all_of [] = none
all_of (a ∷ ps) = some (conjunction a ps)

unfoldable pub covered : List String → List String → Bool
covered [] names = true
covered (x ∷ xs) names = contains names x && covered xs names

module _ (on_left on_right : AstExpr → Bool) where
  -- Neither side alone has the columns of the predicate.
  abbrev pub spans : AstExpr → Bool
  spans p = not (on_left p) && not (on_right p)

  abbrev pub only_right : AstExpr → Bool
  only_right p = not (on_left p) && on_right p

  -- An equality between the sides, the left one first.
  abbrev pub equated : AstExpr → Option (AstExpr × AstExpr)
  equated (boolean eq a b) =
      if on_left a && on_right b
      then some (a, b)
      else (if on_right a && on_left b then some (b, a) else none)
  equated _ = none

  abbrev pub is_equated : Option (AstExpr × AstExpr) → Bool
  is_equated none = false
  is_equated (some e) = true

  abbrev pub consed :
      Option (AstExpr × AstExpr) → List (AstExpr × AstExpr) → List (AstExpr × AstExpr)
  consed none eqs = eqs
  consed (some e) eqs = e ∷ eqs

  abbrev pub join_equalities : List AstExpr → List (AstExpr × AstExpr)
  join_equalities [] = []
  join_equalities (p ∷ ps) =
      if spans p then consed (equated p) (join_equalities ps) else join_equalities ps

  -- What is left to the join itself.
  abbrev pub at_join : List AstExpr → List AstExpr
  at_join ps = keep (λ p. spans p && not (is_equated (equated p))) ps

-- A cross product for which an equality was found is a join.
abbrev pub joined_by : List (AstExpr × AstExpr) → Option AstExpr → TwoOp
joined_by [] rest = crossing (record { filter = rest })
joined_by (e ∷ eqs) rest = joining (record { eqs = e ∷ eqs; filter = rest })

module _ (catalog : ℕ → Option (List String)) where
  -- The tree has the columns of the predicate.
  abbrev pub covers : PlanTree → AstExpr → Bool
  covers t p = covered (columns p) (tree_columns catalog t)

  -- The tree with the given predicates, and its own ones, pushed down.
  unfoldable pub wanted : PlanTree → List AstExpr → PlanTree
  wanted (leaf s) ps = leaf (record s { filter = all_of (ps ++ filter_conjuncts s.filter) })
  wanted (over (projecting p) t) ps = over (projecting p) (wanted t ps)
  wanted (over (filtering f) t) ps = wanted t (ps ++ conjuncts f.predicate)
  wanted (over (aggregating a) t) ps =
      let qs = ps ++ filter_conjuncts a.having in
      over (aggregating (record a { having = all_of (keep (λ p. not (covers t p)) qs) }))
        (wanted t (keep (covers t) qs))
  wanted (over (sorting o) t) ps = over (sorting o) (wanted t ps)
  wanted (both (joining j) l r) ps =
      let qs = ps ++ filter_conjuncts j.filter in
      both
        (joining (record {
          eqs = j.eqs ++ join_equalities (covers l) (covers r) qs;
          filter = all_of (at_join (covers l) (covers r) qs);
        }))
        (wanted l (keep (covers l) qs)) (wanted r (keep (only_right (covers l) (covers r)) qs))
  wanted (both (crossing c) l r) ps =
      let qs = ps ++ filter_conjuncts c.filter in
      both
        (joined_by (join_equalities (covers l) (covers r) qs)
          (all_of (at_join (covers l) (covers r) qs)))
        (wanted l (keep (covers l) qs)) (wanted r (keep (only_right (covers l) (covers r)) qs))
