-- ===== src/Plan/Pushdown/Refine.antt =====
-- `pushdown` and `apply` of optimizer/src/pushdown_predicate.rs on graphs, against the pushdown on trees.
use crustydb_labs_cs378_spri.Prelude.{
  ℕ, zero, suc, ◌≤◌, ◌≡◌, refl, subst, ap, ◌∙◌, List, [], ◌∷◌, Option, some, String, Outcome, ok,
  ◌>>=◌, >>=-ok, unwrap, arith,
}
use crustydb_labs_cs378_spri.Expr.Ast.{AstExpr}
use crustydb_labs_cs378_spri.Plan.Graph.{node_data}
use crustydb_labs_cs378_spri.Plan.Graph.Targets.{new-Inv, add_node-Inv, targets_of}
use crustydb_labs_cs378_spri.Plan.Logical.{
  LogicalOp, LogicalPlan, ScanNode, scan, merge, add_node, edges,
}
use crustydb_labs_cs378_spri.Plan.Logical
use crustydb_labs_cs378_spri.Plan.Tree.{
  OneOp, projecting, filtering, aggregating, sorting, one_op, TwoOp, joining, crossing, two_op,
  PlanTree, leaf, over, both, height, Stands, StandsIn,
}
use crustydb_labs_cs378_spri.Plan.Tree.Build.{PlanInv, Represents, put_over-Represents}
use crustydb_labs_cs378_spri.Plan.Tree.Merge.{merge-Represents}
use crustydb_labs_cs378_spri.Plan.Pushdown.{
  Split, put_over, joined, joined_or_crossed, separate_filter, separate_predicates_by_and,
  combine_predicates_with_and, place_having, pushdown_through_node, pushdown_two, pushdown_op,
  pushdown, apply, can_be_pushed_down, place_all,
}
use crustydb_labs_cs378_spri.Plan.Pushdown.Columns.{edges-targets, height_pos, can_refined}
use crustydb_labs_cs378_spri.Plan.Pushdown.Place.{
  NamedAll-separate, NamedAll-separate_filter, NamedSplit-all_placed, NamedAll-having_placed,
  place_all-all_placed, place_having-having_placed,
}
use crustydb_labs_cs378_spri.Plan.Pushdown.Spec.{
  fits, having_placed, start_with, split, join_of, cross_of, push, Named, NamedAll, Ready,
}
use crustydb_labs_cs378_spri.Plan.Pushdown.Wanted.{wanted}
use crustydb_labs_cs378_spri.Plan.Pushdown.Reached.{push-wanted}

-- A plan of one scan.
pub Represents-leaf : (s : ScanNode) → Represents (add_node Logical.new (scan s)).1 (leaf s)
unfolding Stands
Represents-leaf s =
    (record { graph = add_node-Inv _ (scan s) new-Inv; loopless = tt }, 0, refl, (refl, refl))

joined_or_crossed-cross_of : (s : Split) → joined_or_crossed s ≡ two_op (cross_of s.new_eqs s)
joined_or_crossed-cross_of s = of_eqs s s.new_eqs refl
  where
    of_eqs :
        (s' : Split) (eqs : List (AstExpr × AstExpr))
        → s'.new_eqs ≡ eqs
        → joined_or_crossed s' ≡ two_op (cross_of eqs s')
    of_eqs s' [] e = rw (e) refl
    of_eqs s' (x ∷ xs) e = rw (e) refl

-- That a call builds a plan of the tree.
abbrev pub Builds : Outcome LogicalPlan → PlanTree → Type 0
Builds call t = (lp' : LogicalPlan) × (call ≡ ok lp') × Represents lp' t

module _ (catalog : ℕ → Option (List String)) (lp : LogicalPlan) (v : PlanInv lp) where
  -- The branches, where the recursive calls build the trees of the children.
  module _ (recurse : ℕ → List AstExpr → Outcome LogicalPlan) (i : ℕ) {op : LogicalOp}
      (here : node_data lp.dataflow i ≡ some op) where
    over_child :
        (o : OneOp) (c : ℕ) (ps : List AstExpr) (t : PlanTree)
        → targets_of lp.dataflow.edge_list i ≡ c ∷ []
        → Builds (recurse c ps) t
        → Builds (pushdown_through_node catalog lp recurse i ps (one_op o)) (over o t)
    unfolding pushdown_through_node
    over_child o c ps t at (lp1, done, rep) =
        let (lp2, put, rep2) = put_over-Represents o lp1 t rep in
        (
          lp2,
          >>=-ok _ _ (edges-targets catalog lp v i here ∙ ap ok at)
              (>>=-ok (recurse c ps) (λ new_lp. put_over (one_op o) new_lp) done put),
          rep2,
        )

    over_two :
        (o : TwoOp) (operator : Split → LogicalOp) (fuel a b : ℕ) (l r : PlanTree)
        (ps : List AstExpr) (eqs : List (AstExpr × AstExpr)) (l' r' : PlanTree)
        → targets_of lp.dataflow.edge_list i ≡ a ∷ b ∷ []
        → ((p : AstExpr) → Named p → can_be_pushed_down catalog lp fuel p a ≡ ok (fits catalog l p))
        → ((p : AstExpr) → Named p → can_be_pushed_down catalog lp fuel p b ≡ ok (fits catalog r p))
        → NamedAll ps
        → operator (split catalog l r ps eqs) ≡ two_op o
        → Builds (recurse a (split catalog l r ps eqs).left_predicates) l'
        → Builds (recurse b (split catalog l r ps eqs).right_predicates) r'
        → Builds (pushdown_two catalog lp recurse fuel i ps eqs operator) (both o l' r')
    unfolding pushdown_two
    over_two o operator fuel a b l r ps eqs l' r' at can_l can_r named is_o (lpl, done_l, rep_l)
          (lpr, done_r, rep_r) =
        let (lp', merged, rep) = merge-Represents o lpl lpr l' r' rep_l rep_r in
        (
          lp',
          >>=-ok _ _ (edges-targets catalog lp v i here ∙ ap ok at) (
              >>=-ok (place_all catalog lp fuel a b ps (start_with eqs))
                (λ s.
                  recurse a s.left_predicates
                  >>= (λ x. recurse b s.right_predicates >>= (λ y. merge x (operator s) y)))
                (place_all-all_placed catalog lp v fuel a b l r can_l can_r ps (start_with eqs)
                  named)
                (>>=-ok _
                  (λ x.
                    recurse b (split catalog l r ps eqs).right_predicates
                    >>= (λ y. merge x (operator (split catalog l r ps eqs)) y))
                  done_l
                  (>>=-ok _ (λ y. merge lpl (operator (split catalog l r ps eqs)) y) done_r
                    (ap (λ o'. merge lpl o' lpr) is_o ∙ merged)))),
          rep,
        )

  pushdown_step :
      (fuel i : ℕ) (ps : List AstExpr) {op : LogicalOp}
      → node_data lp.dataflow i ≡ some op
      → pushdown catalog lp (suc fuel) i ps
        ≡ pushdown_op catalog lp (λ j qs. pushdown catalog lp fuel j qs) fuel i op ps
  unfolding pushdown
  pushdown_step fuel i ps here = >>=-ok _ _ (ap unwrap here) refl

  -- From a node where a tree stands, with the predicates above it, the code builds the tree that the
  -- pushdown on trees gives. Fuel for the height of the tree is enough.
  pub pushdown-Builds :
      (fuel i : ℕ) (t : PlanTree) (ps : List AstExpr)
      → height t ≤ fuel
      → StandsIn lp i t
      → Ready catalog t
      → NamedAll ps
      → Builds (pushdown catalog lp fuel i ps) (push catalog t ps)
  unfolding pushdown_op push Stands
  pushdown-Builds zero i t ps h stands ready named =
      absurd (omega (arith, height_pos catalog lp v t))
  pushdown-Builds (suc fuel) i (leaf s) ps h (here, at) ready named =
      (_, pushdown_step fuel i ps here, Represents-leaf _)
  pushdown-Builds (suc fuel) i (over (projecting p) t) ps h (here, c, at, below) (np, ready) named =
      let (lp', done, rep) =
        over_child (λ j qs. pushdown catalog lp fuel j qs) i here (projecting p) c ps _ at
          (pushdown-Builds fuel c t ps (omega arith) below ready named) in
      (lp', pushdown_step fuel i ps here ∙ done, rep)
  pushdown-Builds (suc fuel) i (over (filtering f) t) ps h (here, c, at, below) (np, ready) named =
      let (lp', done, rep) =
        pushdown-Builds fuel c t (separate_predicates_by_and f.predicate ps) (omega arith) below
          ready (NamedAll-separate f.predicate ps np named) in
      (
        lp',
        pushdown_step fuel i ps here
            ∙ >>=-ok _ _ (edges-targets catalog lp v i here ∙ ap ok at) done,
        rep,
      )
  pushdown-Builds (suc fuel) i (over (aggregating a) t) ps h (here, c, at, below)
        (nf, ng, nh, ready) named =
      let qs = separate_filter a.having ps in
      let nqs = NamedAll-separate_filter a.having ps nh named in
      let s = having_placed (fits catalog t) qs ([], []) in
      let (lp1, done, rep) =
        pushdown-Builds fuel c t s.1 (omega arith) below ready
          (NamedAll-having_placed (fits catalog t) qs [] [] nqs tt) in
      let (lp2, put, rep2) =
        put_over-Represents (aggregating (record a { having = combine_predicates_with_and s.0 }))
          lp1 _ rep in
      (
        lp2,
        pushdown_step fuel i ps here
            ∙ >>=-ok _ _ (edges-targets catalog lp v i here ∙ ap ok at) (
                >>=-ok (place_having catalog lp fuel c qs ([], [])) _
                  (place_having-having_placed catalog lp v fuel c c t t
                    (λ p n. can_refined catalog lp v fuel c t p (omega arith) below ready n)
                    (λ p n. can_refined catalog lp v fuel c t p (omega arith) below ready n) qs []
                    [] nqs)
                  (>>=-ok (pushdown catalog lp fuel c s.1) _ done put)),
        rep2,
      )
  pushdown-Builds (suc fuel) i (over (sorting o) t) ps h (here, c, at, below) ready named =
      let (lp', done, rep) =
        over_child (λ j qs. pushdown catalog lp fuel j qs) i here (sorting o) c ps _ at
          (pushdown-Builds fuel c t ps (omega arith) below ready named) in
      (lp', pushdown_step fuel i ps here ∙ done, rep)
  pushdown-Builds (suc fuel) i (both (joining j) l r) ps h (here, a, b, at, left, right)
        (nf, rl, rr) named =
      let qs = separate_filter j.filter ps in
      let nqs = NamedAll-separate_filter j.filter ps nf named in
      let s = split catalog l r qs j.eqs in
      let ns =
        NamedSplit-all_placed (fits catalog l) (fits catalog r) qs (start_with j.eqs) nqs
          (record { lefts = tt; rights = tt }) in
      let (lp', done, rep) =
        over_two (λ k us. pushdown catalog lp fuel k us) i here (join_of s) joined fuel a b l r qs
          j.eqs _ _ at (λ p n. can_refined catalog lp v fuel a l p (omega arith) left rl n)
          (λ p n. can_refined catalog lp v fuel b r p (omega arith) right rr n) nqs refl
          (pushdown-Builds fuel a l s.left_predicates (omega arith) left rl ns.lefts)
          (pushdown-Builds fuel b r s.right_predicates (omega arith) right rr ns.rights) in
      (lp', pushdown_step fuel i ps here ∙ done, rep)
  pushdown-Builds (suc fuel) i (both (crossing x) l r) ps h (here, a, b, at, left, right)
        (nf, rl, rr) named =
      let qs = separate_filter x.filter ps in
      let nqs = NamedAll-separate_filter x.filter ps nf named in
      let s = split catalog l r qs [] in
      let ns =
        NamedSplit-all_placed (fits catalog l) (fits catalog r) qs (start_with []) nqs
          (record { lefts = tt; rights = tt }) in
      let (lp', done, rep) =
        over_two (λ k us. pushdown catalog lp fuel k us) i here (cross_of s.new_eqs s)
          joined_or_crossed fuel a b l r qs [] _ _ at
          (λ p n. can_refined catalog lp v fuel a l p (omega arith) left rl n)
          (λ p n. can_refined catalog lp v fuel b r p (omega arith) right rr n) nqs
          (joined_or_crossed-cross_of s)
          (pushdown-Builds fuel a l s.left_predicates (omega arith) left rl ns.lefts)
          (pushdown-Builds fuel b r s.right_predicates (omega arith) right rr ns.rights) in
      (lp', pushdown_step fuel i ps here ∙ done, rep)

-- `apply` on the graph, from the same loops on trees.
pub apply-push :
    (catalog : ℕ → Option (List String)) (lp : LogicalPlan) (fuel : ℕ) (t : PlanTree)
    → Represents lp t
    → Ready catalog t
    → height t ≤ fuel
    → Builds (apply catalog lp fuel) (push catalog t [])
unfolding apply
apply-push catalog lp fuel t (v, r, at_root, stands) ready h =
    let (lp', done, rep) = pushdown-Builds catalog lp v fuel r t [] h stands ready tt in
    (lp', >>=-ok _ _ (ap unwrap at_root) done, rep)

-- On a well-formed plan that represents a tree, where no expression that the rule reads is bound (has the
-- index of a column), the catalog knows every table that is scanned without a projection, and the fuel is
-- at least the height, the rule returns, without a panic, a well-formed plan of the tree in which the
-- predicates have been pushed down: every predicate is taken apart at its `And`s, the parts go, in order,
-- to the left side of a join if it has their columns, else to the right one if that has them, an equality
-- between the sides is added to the join's own (a cross product with one becomes a join), and what is left
-- is the conjunction at the join; of the parts
-- over an aggregate those whose columns are below it go there and the others are its `having`; and a scan
-- has the conjunction of all that reach it and of its own filter.
pub apply-Builds :
    (catalog : ℕ → Option (List String)) (lp : LogicalPlan) (fuel : ℕ) (t : PlanTree)
    → Represents lp t
    → Ready catalog t
    → height t ≤ fuel
    → Builds (apply catalog lp fuel) (wanted catalog t [])
apply-Builds catalog lp fuel t rep ready h =
    subst (Builds (apply catalog lp fuel)) (push-wanted catalog t [])
      (apply-push catalog lp fuel t rep ready h)
